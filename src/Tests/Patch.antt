-- ===== src/Tests/Patch.antt =====
-- The patch at work: its code in the client, and a connection that is redirected.
use giblet.Common.{
  ℕ, ◌+◌, ◌≡◌, ◌≤◌, ◌<◌, ◌⊎◌, refl, Bool, true, false, none, some, [], ◌∷◌, Bytes, codes, equals,
  arith,
}
use giblet.Runtime.{to_string}
use giblet.Map.{Map, find}
use giblet.Web.{Request, Handler, call_handler, dispatch_host}
use giblet.CodeHook.Memory.{Memory, store, slice}
use giblet.CodeHook.MemoryBlock.{Pages, page_readwrite}
use giblet.Patch.{
  InternetConnect, has_name, addresses, localhost_name, apply_flat_patch, return_true_in_eax,
}
use giblet.Patch.Redirect.{dispatch_host-proxy}
use giblet.Patch.Flat.{apply_flat_patch_lem}

-- The chat pages, on a connection with a user's name.
abbrev chat_connect : InternetConnect Bytes
chat_connect = record {
  server_name = codes "chat.yahoo.com";
  server_port = 80;
  others = codes "bob";
}

abbrev chat_handler : Handler
chat_handler conn = (true, codes "chat" ∷ [])

abbrev chat_hosts : Map Handler
chat_hosts = (codes "chat.yahoo.com.localhost", chat_handler) ∷ []

abbrev chat_request : Request
chat_request = record {
  host = some (codes "chat.yahoo.com.localhost:41337");
  uri = some (codes "/");
  query_string = none;
}

dispatch_host-proxy_example :
    dispatch_host chat_hosts (some (codes "chat.yahoo.com.localhost:41337")) chat_request
    ≡ call_handler (find (codes "chat.yahoo.com.localhost") chat_hosts) chat_request
unfolding has_name to_string equals giblet.Patch.proxy_internet_connect_a
    giblet.Patch.redirect_connect
dispatch_host-proxy_example = dispatch_host-proxy chat_hosts chat_connect chat_request refl refl

-- A system of one range of pages with one protection.
abbrev plain_pages : Pages ℕ
plain_pages = record {
  virtual_query = λ a w. none;
  virtual_protect = λ a n prot old w. (true, w, prot);
}

abbrev protect_null : ℕ → ℕ → ℕ → ℕ → Bool × ℕ
protect_null a n prot w = (false, w)

abbrev patched : Memory
patched = store 0x4c3603 return_true_in_eax λ _. 0

apply_flat_patch_lem_example :
    (slice patched 0x4c3603 8 ≡ return_true_in_eax)
    × ((x : ℕ) → (x < 0x4c3603) ⊎ (0x4c3603 + 8 ≤ x) → patched x ≡ 0)
    × ((x : ℕ) → 0x4c3603 ≤ x → x < 0x4c3603 + 8 → 4 ≡ page_readwrite)
unfolding apply_flat_patch
apply_flat_patch_lem_example =
    apply_flat_patch_lem plain_pages protect_null (λ w x. w) (λ a n prot old w e x low high. refl)
      (λ a n prot w x. refl) 0x4c3603 return_true_in_eax (λ _. 0) patched 32 4 (ground arith) refl
