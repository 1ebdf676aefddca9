-- ===== src/Web/Insider.antt =====
-- YahooWeb/src/YahooInsiderWebServer.cpp: the pages that the client loads by itself.
pub mod Imv
use giblet.Common.{
  ℕ, zero, suc, ◌+◌, ◌≡◌, ◌≢◌, refl, sym, ap, ◌∙◌, Bool, true, false, not, ◌&&◌, ◌||◌, ◌==◌,
  if◌then◌else◌, Option, none, some, List, [], ◌∷◌, ◌++◌, drop, Bytes, equals, codes, is_empty,
}
use giblet.Web.{Request, Handler, get_full_url, generic_serve_file, before}

unfoldable pub starts_with : Bytes → Bytes → Bool
starts_with [] s = true
starts_with (x ∷ p) [] = false
starts_with (x ∷ p) (y ∷ s) = (x == y) && starts_with p s

abbrev later : Option ℕ → Option ℕ
later none = none
later (some n) = some (suc n)

-- `std::string::find`: the position of the first occurrence.
unfoldable pub find_text : Bytes → Bytes → Option ℕ
find_text p [] = if is_empty p then some 0 else none
find_text p (x ∷ s) = if starts_with p (x ∷ s) then some 0 else later (find_text p s)

abbrev is_found : Option ℕ → Bool
is_found none = false
is_found (some n) = true

abbrev has_text : Bytes → Bytes → Bool
has_text p s = is_found (find_text p s)

abbrev getimv : Bytes
getimv = codes "?getimv="

module _ (files : Bytes → Option Bytes) where
  -- A file of the page, if the address asks for it; one that is missing is left out.
  abbrev part : Bytes → Bytes → Bytes → List Bytes
  part url pattern filepath =
      if has_text pattern url then (generic_serve_file files filepath).1 else []

  -- The content of the sources that the address names.
  unfoldable pub content_page : Bytes → List Bytes
  content_page url =
      codes "<?xml version=\"1.0\" encoding=\"utf-8\" ?>"
      ∷ codes "<yahooinsider intl=\"us\">"
      ∷ (part url (codes "&filter=0") (codes "htdoc/insider.yahoo.com/filters.xml")
          ++ part url (codes "&imv=0") (codes "htdoc/insider.yahoo.com/imvironments.xml")
          ++ part url (codes "&system=0") (codes "htdoc/insider.yahoo.com/system.xml")
          ++ part url (codes "&sms=0") (codes "htdoc/insider.yahoo.com/sms.xml")
          ++ part url (codes "&chatcat=") (codes "htdoc/insider.yahoo.com/chatCategories.xml")
          ++ part url (codes "&ab2=0") (codes "htdoc/insider.yahoo.com/addressbook.xml")
          ++ codes "</yahooinsider>" ∷ [])

  -- The file of an IMVironment, whose name stands at a position of the address.
  unfoldable pub serve_imv : Bytes → ℕ → Bool × List Bytes
  serve_imv url pos =
      generic_serve_file files
        (codes "htdoc/insider.yahoo.com/imv/" ++ before 38 (drop (pos + 8) url) ++ codes ".yim")

  -- The topics of the chat rooms, or the page.
  unfoldable pub serve_content : Bytes → Bool × List Bytes
  serve_content url =
      if has_text (codes "?chatroom_") url
      then (if has_text (codes "chatroom_") url
          then generic_serve_file files (codes "htdoc/insider.yahoo.com/roomTopics.xml")
          else (false, []))
      else (true, content_page url)

  abbrev pub serve_address : Bytes → Option ℕ → Bool × List Bytes
  serve_address url none = serve_content url
  serve_address url (some pos) = serve_imv url pos

  abbrev is_chat_info : Option Bytes → Bool
  is_chat_info none = false
  is_chat_info (some uri) = equals uri (codes "/ycontent/")

  -- `YahooInsiderWebServer::OnRequest`
  unfoldable pub on_insider_request : Handler
  on_insider_request conn =
      let url = get_full_url conn in
      if is_chat_info conn.uri then serve_address url (find_text getimv url) else (false, [])
