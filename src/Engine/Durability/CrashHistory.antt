-- ===== src/Engine/Durability/CrashHistory.antt =====
-- engine.rs: a crash at any byte of a history of transactions leaves the effect of a first part of
-- them.
use voodoo_store.Prelude.{
  ℕ, suc, ◌-◌, ◌≤◌, ◌<◌, ◌≡◌, sym, ap, subst, ◌∙◌, inl, inr, List, [], ◌∷◌, ◌++◌, length, take,
  arith, ltb, ltb→lt, ltb→le, Bool-cases, length-append, take-append_less, take-append_more,
  take_all,
}
use mathlib.Core.List.{append_assoc, append-nil}
use voodoo_store.Bytes.{Bytes}
use voodoo_store.Platform.{Platform}
use voodoo_store.Engine.Store.{Store}
use voodoo_store.Engine.Durability.Sealing.{HasLog}
use voodoo_store.Engine.Durability.Recovered.{recover_whole}
use voodoo_store.Engine.Durability.History.{Session, run_session, run_sessions, run_session-HasLog}
use voodoo_store.Engine.Durability.Crash.{Finds, Grows}
use voodoo_store.Engine.Durability.Cuts.{run_session-Grows}

module _ ⦃d : Platform⦄ where
  Finds-whole : (s : Store) → HasLog s → Finds s.device.bytes s.state
  Finds-whole s h =
      let r = recover_whole s h in
      record { recovery = r.recovery; succeeds = r.succeeds; found = r.state }

  -- What a history writes behind the file.
  run_sessions-bytes :
      (sessions : List Session) (s : Store)
      → HasLog s
      → (grown : Bytes) × ((run_sessions sessions s).device.bytes ≡ s.device.bytes ++ grown)
  unfolding run_sessions
  run_sessions-bytes [] s h = ([], sym (append-nil s.device.bytes))
  run_sessions-bytes (session ∷ sessions) s h =
      let first = run_session-Grows session s h in
      let (grown, e) =
        run_sessions-bytes sessions (run_session session s) (run_session-HasLog session s h) in
      (
        first.grown ++ grown,
        e ∙ ap (λ bs. bs ++ grown) first.bytes ∙ append_assoc s.device.bytes first.grown grown,
      )

  -- The file of `s'`, cut inside of what it has more than that of `s`.
  Grows-cut :
      (s s' : Store) (n : ℕ)
      → Grows s s'
      → length s.device.bytes ≤ n
      → n < length s'.device.bytes
      → Finds (take n s'.device.bytes) s.state
  Grows-cut s s' n g le lt =
      let k = n - length s.device.bytes in
      subst (λ bs. Finds bs s.state)
        (sym (take-append_more s.device.bytes g.grown n k (omega arith))
          ∙ ap (λ bs. take n bs) (sym g.bytes))
        (g.cut k
          (omega (arith, ap (λ bs. length bs) g.bytes, length-append s.device.bytes g.grown)))

  -- When a crash cuts the file off anywhere behind the file of a store that held its state, while any
  -- history of transactions was running on that store, then recovery succeeds and finds the state after
  -- a first part of the transactions, each of them whole.
  pub crash-Finds :
      (sessions : List Session) (s : Store) (n : ℕ)
      → HasLog s
      → length s.device.bytes ≤ n
      → n ≤ length (run_sessions sessions s).device.bytes
      → (k : ℕ) × Finds
          (take n (run_sessions sessions s).device.bytes)
          (run_sessions (take k sessions) s).state
  unfolding run_sessions
  crash-Finds [] s n h le ge = (
    0,
    subst (λ bs. Finds bs s.state) (sym (take_all s.device.bytes n (omega arith)))
        (Finds-whole s h),
  )
  crash-Finds (session ∷ sessions) s n h le ge =
      let s' = run_session session s in
      let h' = run_session-HasLog session s h in
      elim (Bool-cases (ltb n (length s'.device.bytes))) [
        | inl lt ↦
            let inside = ltb→lt n (length s'.device.bytes) lt in
            let (grown, e) = run_sessions-bytes sessions s' h' in
            (
              0,
              subst (λ bs. Finds bs s.state)
                  (sym (take-append_less s'.device.bytes grown n (omega (arith, inside)))
                    ∙ ap (λ bs. take n bs) (sym e))
                  (Grows-cut s s' n (run_session-Grows session s h) le inside),
            )
        | inr later ↦
            let (k, finds) =
              crash-Finds sessions s' n h' (ltb→le n (length s'.device.bytes) later) ge in
            (suc k, finds)
      ]
