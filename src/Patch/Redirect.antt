-- ===== src/Patch/Redirect.antt =====
-- Where the client's requests arrive whose address a proxy has changed.
use giblet.Common.{
  ◌≡◌, ◌≢◌, ap, subst, ◌∙◌, inl, inr, Bool-cases, true, List, [], ◌∷◌, ◌++◌, Bytes, codes, equals,
  equals_iff, arith, All, All-append, some, pos,
}
use giblet.Runtime.{to_string}
use giblet.Map.{Map, find}
use giblet.Web.{Request, Handler, call_handler, dispatch_host}
use giblet.Web.Hosts.{before-append, dispatch_host-named}
use giblet.Patch.{
  InternetConnect, addresses, has_name, localhost_name, redirect_connect, proxy_internet_connect_a,
}

module _ (P : Bytes → Type 0) where
  -- What holds of each name of a list holds of a name that is found there.
  has_name-All :
      (name : Bytes) (names : List Bytes) → All P names → has_name name names ≡ true → P name
  unfolding has_name
  has_name-All name [] h e = cc e
  has_name-All name (a ∷ names) (h, hs) e = elim (Bool-cases (equals a name)) [
    | inl same ↦ subst P ((equals_iff a name).0 same) h
    | inr other ↦ has_name-All name names hs (simp other at e)
  ]

-- The header `Host` of a request on a connection: the name and the port.
abbrev pub host_header {ℓ} : {A : Type ℓ} → InternetConnect A → Bytes
host_header c = c.server_name ++ 58 ∷ to_string (pos c.server_port)

addresses-All : All (All λ c. c ≢ 58) addresses
addresses-All = ground arith

-- A connection to one of the addresses that are redirected, whose requests name their host and port as
-- the proxy gave them, is answered by the handler that the server has for the name with
-- `.localhost` behind it, whatever else the connection asks for.
pub dispatch_host-proxy {ℓ} :
    {A : Type ℓ} (handlers : Map Handler) (c : InternetConnect A) (conn : Request)
    → has_name c.server_name addresses ≡ true
    → conn.host ≡ some (host_header (proxy_internet_connect_a (λ d. d) c))
    → dispatch_host handlers conn.host conn
      ≡ call_handler (find (localhost_name c.server_name) handlers) conn
unfolding proxy_internet_connect_a redirect_connect
dispatch_host-proxy handlers c conn e h =
    let name = localhost_name c.server_name in
    let plain = has_name-All (All λ c. c ≢ 58) c.server_name addresses addresses-All e in
    let header : conn.host ≡ some (name ++ 58 ∷ to_string (pos 41337)) = simp e at h in
    dispatch_host-named handlers (name ++ 58 ∷ to_string (pos 41337)) conn header
    ∙ ap (λ k. call_handler (find k handlers) conn)
        (before-append 58 name (to_string (pos 41337))
          (All-append (λ c. c ≢ 58) c.server_name (codes ".localhost") plain (ground arith)))
