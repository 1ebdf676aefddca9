-- ===== src/Web/Insider/Imv.antt =====
-- Which file a request for an IMVironment is answered with.
use giblet.Common.{
  ℕ, ◌+◌, ◌≡◌, ◌≢◌, refl, sym, ap, ◌∙◌, true, Option, some, [], ◌∷◌, ◌++◌, append_assoc, length,
  length-append, drop, drop_append, All, All-append, Bytes, equals, codes, arith,
}
use giblet.Web.{get_full_url, generic_serve_file, before}
use giblet.Web.Hosts.{before-append}
use giblet.Web.Insider.{starts_with, find_text, getimv, serve_imv, on_insider_request}

starts_with_append : (p s : Bytes) → starts_with p (p ++ s) ≡ true
unfolding starts_with
starts_with_append [] s = refl
starts_with_append (x ∷ p) s = ground (arith, starts_with_append p s)

-- A pattern is found behind a text without its first character.
find_text-append :
    (c : ℕ) (p s t : Bytes)
    → All (λ x. x ≢ c) s
    → find_text (c ∷ p) (s ++ (c ∷ p ++ t)) ≡ some (length s)
unfolding find_text starts_with
find_text-append c p [] t h = ground (arith, starts_with_append p t)
find_text-append c p (x ∷ s) t (n, h) = ground (arith, find_text-append c p s t h)

-- A request for `/ycontent/` that asks for an IMVironment, with a host without a question mark, is
-- answered with the file of that name, which is the text up to the next `&`, whatever characters it has.
pub on_insider_request-imv :
    (files : Bytes → Option Bytes) (host name rest : Bytes)
    → All (λ c. c ≢ 63) host
    → All (λ c. c ≢ 38) name
    → on_insider_request files (record {
      host = some host;
      uri = some (codes "/ycontent/");
      query_string = some (codes "getimv=" ++ (name ++ 38 ∷ rest));
    })
      ≡ generic_serve_file files (codes "htdoc/insider.yahoo.com/imv/" ++ name ++ codes ".yim")
unfolding on_insider_request serve_imv get_full_url equals
on_insider_request-imv files host name rest h n =
    let page = codes "/ycontent/" in
    let front = host ++ page in
    let behind = name ++ 38 ∷ rest in
    let plain = All-append (λ c. c ≢ 63) host page h (ground arith) in
    let found = find_text-append 63 (codes "getimv=") front behind plain in
    let cut : before 38 (drop (length front + 8) (front ++ (getimv ++ behind))) ≡ name =
      ap (before 38) (
        ap (λ k. drop k (front ++ (getimv ++ behind))) (sym (length-append front getimv))
        ∙ ap (drop (length (front ++ getimv))) (sym (append_assoc front getimv behind))
        ∙ drop_append (front ++ getimv) behind)
      ∙ before-append 38 name rest n in
    simp found (rw cut)
