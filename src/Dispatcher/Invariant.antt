-- ===== src/Dispatcher/Invariant.antt =====
-- A dispatcher keeps what each of its functions keeps.
use giblet.Common.{ℕ, [], ◌∷◌, Bytes, ◌==◌, All, Bool-cases, inl, inr}
use giblet.Common.Exec.{Exec}
use giblet.Common.Exec.Keeps.{Keeps, Keeps-bind, Keeps-lift}
use giblet.Header.{Header}
use giblet.Parser.{OnKeyPair, parse, payload_on_key_pair}
use giblet.Stream.{DispatcherFunction}
use giblet.Dispatcher.{
  DispatchMap, find_processor, add_processor, unknown_service, call, dispatch, packet_processor,
}

-- The function keeps `P` on every packet.
abbrev pub KeepsAll : {W : Type 0} → (W → Type 0) → DispatcherFunction W → Type 0
KeepsAll P f = (header : Header) (payload behind : Bytes) → Keeps P (f header payload behind)

abbrev pub IsSafeMap : {W : Type 0} → (W → Type 0) → DispatchMap W → Type 0
IsSafeMap {W} P = All λ (p : ℕ × DispatcherFunction W). KeepsAll P p.1

module _ {W : Type 0} {P : W → Type 0} where
  pub packet_processor-Keeps :
      {A : Type 0} (on_key_pair : OnKeyPair A) (fields : A)
      (process : Header → A → Exec W (Unit {0}))
      → ((h : Header) (p : A) → Keeps P (process h p))
      → KeepsAll P (packet_processor on_key_pair fields process)
  unfolding packet_processor
  packet_processor-Keeps on_key_pair fields process k header payload behind =
      Keeps-bind (Keeps-lift (parse on_key_pair fields payload behind)) (k header)

  unknown_service-Keeps : KeepsAll P unknown_service
  unfolding unknown_service
  unknown_service-Keeps header payload behind =
      Keeps-lift (parse payload_on_key_pair tt payload behind)

  call-Keeps :
      (id : ℕ) (processors : DispatchMap W)
      → IsSafeMap P processors
      → KeepsAll P (call (find_processor id processors))
  unfolding call find_processor
  call-Keeps id [] h = unknown_service-Keeps
  call-Keeps id ((j, f) ∷ m) (hf, h) = elim (Bool-cases (j == id)) [
    | inl same ↦ rw same hf
    | inr other ↦ rw other (call-Keeps id m h)
  ]

  pub dispatch-Keeps :
      (processors : DispatchMap W) → IsSafeMap P processors → KeepsAll P (dispatch processors)
  unfolding dispatch
  dispatch-Keeps processors h header = call-Keeps header.service_id processors h header

  pub add_processor-IsSafeMap :
      (id : ℕ) (f : DispatcherFunction W) (m : DispatchMap W)
      → KeepsAll P f
      → IsSafeMap P m
      → IsSafeMap P (add_processor id f m)
  unfolding add_processor
  add_processor-IsSafeMap id f [] k h = (k, tt)
  add_processor-IsSafeMap id f ((j, g) ∷ m) k (hg, h) = elim (Bool-cases (j == id)) [
    | inl same ↦ rw same (hg, h)
    | inr other ↦ rw other (hg, add_processor-IsSafeMap id f m k h)
  ]
