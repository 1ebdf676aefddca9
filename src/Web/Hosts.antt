-- ===== src/Web/Hosts.antt =====
-- What the server of several hosts answers.
use giblet.Common.{
  ℕ, ◌≡◌, ◌≢◌, refl, sym, ap, ◌∙◌, inl, inr, Bool-cases, if◌then◌else◌, Option-cases, some, [], ◌∷◌,
  ◌++◌, Bytes, equals, arith, All,
}
use giblet.Map.{Map, find}
use giblet.Map.Laws.{find-emplace, find-assign}
use giblet.Web.{
  Request, Handler, before, insert_or_assign, add_host, call_handler, dispatch_host, finish_request,
  on_host_request,
}

find-insert_or_assign :
    {V : Type 0} (k j : Bytes) (v : V) (m : Map V)
    → find j (insert_or_assign k v m).0 ≡ (if equals k j then some v else find j m)
unfolding insert_or_assign
find-insert_or_assign k j v m = elim (Option-cases (find k m)) [
  | inl e ↦ rw e (find-emplace k j v m e)
  | inr (w, e) ↦ rw e (find-assign k j v m λ n. cc (sym e ∙ n))
]

-- A text without the character is not cut, and one with it is cut there.
pub before-append : (c : ℕ) (s t : Bytes) → All (λ x. x ≢ c) s → before c (s ++ c ∷ t) ≡ s
unfolding before
before-append c [] t h = ground arith
before-append c (x ∷ s) t (n, h) = ground (arith, before-append c s t h)

before-All : (c : ℕ) (s : Bytes) → All (λ x. x ≢ c) s → before c s ≡ s
unfolding before
before-All c [] h = refl
before-All c (x ∷ s) (n, h) = ground (arith, before-All c s h)

pub dispatch_host-named :
    (handlers : Map Handler) (host : Bytes) (conn : Request)
    → conn.host ≡ some host
    → dispatch_host handlers conn.host conn ≡ call_handler (find (before 58 host) handlers) conn
unfolding dispatch_host
dispatch_host-named handlers host conn e = ap (λ o. dispatch_host handlers o conn) e

-- A request behind `Add` of a handler: if the `Host` header names the handler's host, the handler's answer
-- with the request's address behind it if it was not handled; and else the answer without the handler.
pub on_host_request-add_host :
    (hostname host : Bytes) (handler : Handler) (handlers : Map Handler) (conn : Request)
    → conn.host ≡ some host
    → on_host_request (add_host hostname handler handlers).0 conn ≡ (
        if equals hostname (before 58 host)
        then finish_request conn (handler conn)
        else on_host_request handlers conn)
unfolding on_host_request add_host
on_host_request-add_host hostname host handler handlers conn e =
    let found = find-insert_or_assign hostname (before 58 host) handler handlers in
    let added = (add_host hostname handler handlers).0 in
    let named = dispatch_host-named added host conn e in
    elim (Bool-cases (equals hostname (before 58 host))) [
      | inl same ↦
          simp same
            (ap (finish_request conn) (named ∙ ap (λ r. call_handler r conn) (simp same at found)))
      | inr other ↦ simp other (
          ap (finish_request conn) (
            named
            ∙ ap (λ r. call_handler r conn) (simp other at found)
            ∙ sym (dispatch_host-named handlers host conn e)))
    ]

-- The port in a `Host` header does not change which handler a request gets.
pub dispatch_host_port :
    (handlers : Map Handler) (host port : Bytes) (conn : Request)
    → All (λ c. c ≢ 58) host
    → dispatch_host handlers (some (host ++ 58 ∷ port)) conn
      ≡ dispatch_host handlers (some host) conn
unfolding dispatch_host
dispatch_host_port handlers host port conn h =
    ap (λ k. call_handler (find k handlers) conn)
      (before-append 58 host port h ∙ sym (before-All 58 host h))
