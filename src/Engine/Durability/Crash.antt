-- ===== src/Engine/Durability/Crash.antt =====
-- engine.rs: what recovery finds when a crash cuts the file off anywhere in what a transaction writes.
use voodoo_store.Prelude.{
  ℕ, ◌-◌, ◌^◌, ◌<◌, ◌≡◌, refl, sym, ap, subst, ◌∙◌, ◌⊎◌, inl, inr, true, false, [], ◌++◌, length,
  take, arith, ltb, ltb→lt, ltb→le, Bool-cases, length-append, take-append_less, take-append_more,
}
use mathlib.Core.List.{append_assoc, append-nil}
use voodoo_store.Result.{Result, ok, err}
use voodoo_store.Exec.{continue_ind}
use voodoo_store.Bytes.{Bytes}
use voodoo_store.Platform.{Platform}
use voodoo_store.Log.{RecordKind}
use voodoo_store.Log.RoundTrip.{record_bytes}
use voodoo_store.Engine.Payload.{State, Operation, EngineError, encode_put, encode_delete}
use voodoo_store.Engine.Store.{Store, append}
use voodoo_store.Engine.Transaction.{
  Transaction, ensure_open, stage_operation, put_internal, delete_internal,
}
use voodoo_store.Engine.Recovery.{Recovery, recover}
use voodoo_store.Engine.Durability.Append.{AppendPost, append-AppendPost, entry_of}
use voodoo_store.Engine.Durability.Staging.{IsOpen}
use voodoo_store.Engine.Durability.Sealing.{HasLog}
use voodoo_store.Engine.Durability.Recovered.{crash-Recovers}

module _ ⦃d : Platform⦄ where
  -- Recovery succeeds on `bytes` and finds this state.
  pub record Finds (bytes : Bytes) (state : State) : Type 0 where
    pub recovery : Recovery
    pub succeeds : recover bytes ≡ ok recovery
    pub found : recovery.state ≡ state

  -- `s'` has written some bytes behind the file of `s`. Where a crash lets only a part of them come to
  -- the file, recovery finds the state of `s`.
  pub record Grows (s s' : Store) : Type 0 where
    pub grown : Bytes
    pub bytes : s'.device.bytes ≡ s.device.bytes ++ grown
    pub cut : (n : ℕ) → n < length grown → Finds (s.device.bytes ++ take n grown) s.state

  pub Grows-same : (s s' : Store) → s'.device.bytes ≡ s.device.bytes → Grows s s'
  Grows-same s s' e = record {
    grown = [];
    bytes = e ∙ sym (append-nil s.device.bytes);
    cut = λ n h. absurd (omega (arith, h));
  }

  -- A later store with the same file.
  pub Grows-later : (s u v : Store) → v.device.bytes ≡ u.device.bytes → Grows s u → Grows s v
  Grows-later s u v e g = record { grown = g.grown; bytes = e ∙ g.bytes; cut = g.cut }

  pub Grows-trans : (s u v : Store) → u.state ≡ s.state → Grows s u → Grows u v → Grows s v
  Grows-trans s u v e p q = record {
    grown = p.grown ++ q.grown;
    bytes =
        q.bytes ∙ ap (λ bs. bs ++ q.grown) p.bytes ∙ append_assoc s.device.bytes p.grown q.grown;
    cut = λ n h. at n h (Bool-cases (ltb n (length p.grown)));
  }
    where
      later :
          (n : ℕ)
          → n < length q.grown
          → Finds (s.device.bytes ++ (p.grown ++ take n q.grown)) s.state
      later n h =
          subst (λ bs. Finds bs s.state)
            (ap (λ bs. bs ++ take n q.grown) p.bytes
              ∙ append_assoc s.device.bytes p.grown (take n q.grown))
            (subst (λ state. Finds (u.device.bytes ++ take n q.grown) state) e (q.cut n h))

      at :
          (n : ℕ)
          → n < length (p.grown ++ q.grown)
          → (ltb n (length p.grown) ≡ true) ⊎ (ltb n (length p.grown) ≡ false)
          → Finds (s.device.bytes ++ take n (p.grown ++ q.grown)) s.state
      at n h (inl lt) =
          let inside = ltb→lt n (length p.grown) lt in
          subst (λ bs. Finds (s.device.bytes ++ bs) s.state)
            (sym (take-append_less p.grown q.grown n (omega arith))) (p.cut n inside)
      at n h (inr le) =
          let outside = ltb→le n (length p.grown) le in
          subst (λ bs. Finds (s.device.bytes ++ bs) s.state)
            (sym (take-append_more p.grown q.grown n (n - length p.grown) (omega arith)))
            (later (n - length p.grown) (omega (arith, h, outside, length-append p.grown q.grown)))

-- One record.
module _ ⦃d : Platform⦄ (kind : RecordKind) (tx_id : ℕ) (payload : Bytes) (s : Store) (h : HasLog s)
    (f : tx_id < 2 ^ 64) where
  appended-Grows :
      (r : Result EngineError (Unit {0})) (s' : Store)
      → AppendPost (entry_of kind tx_id payload s) s r s'
      → Grows s s'
  appended-Grows (err _) s' q = Grows-same s s' q.bytes
  appended-Grows (ok _) s' w = record {
    grown = record_bytes (entry_of kind tx_id payload s);
    bytes = w.bytes;
    cut = λ n lt.
        let r =
          crash-Recovers s (entry_of kind tx_id payload s) n h
            (record { tx_id = f; sequence = h.logged.sequence_fits; payload = w.payload_fits })
            lt in
        record { recovery = r.recovery; succeeds = r.succeeds; found = r.state };
  }

  pub append-Grows : Grows s (append kind tx_id payload s).1
  append-Grows =
      appended-Grows (append kind tx_id payload s).0 (append kind tx_id payload s).1
        (append-AppendPost kind tx_id payload s h.logged.sound h.logged.sequence_fits)

module _ ⦃d : Platform⦄ (t : Transaction) (o : IsOpen t) where
  pub IsOpen-HasLog : HasLog t.store
  IsOpen-HasLog = record { at = o.at; logged = o.logged }

  pub tx_id_fits : t.tx_id < 2 ^ 64
  tx_id_fits = omega (arith, o.staged.below, o.logged.tx_id_fits)

  stage_operation-Grows :
      (encoded : Result EngineError Bytes) (kind : RecordKind) (operation : Operation)
      → Grows t.store (stage_operation encoded kind operation t).1.store
  unfolding stage_operation
  stage_operation-Grows encoded kind operation =
      continue_ind P (ensure_open t) _ t
        (λ _ _.
          continue_ind P encoded _ t
            (λ payload _.
              continue_ind P (append kind t.tx_id payload t.store).0 _ _
                (λ _ _. append-Grows kind t.tx_id payload t.store IsOpen-HasLog tx_id_fits)
                (λ _ _. append-Grows kind t.tx_id payload t.store IsOpen-HasLog tx_id_fits))
            (λ _ _. Grows-same t.store t.store refl))
        (λ _ _. Grows-same t.store t.store refl)
    where
      P : Result EngineError (Unit {0}) → Transaction → Type 0
      P _ t' = Grows t.store t'.store

  pub put_internal-Grows : (key value : Bytes) → Grows t.store (put_internal key value t).1.store
  unfolding put_internal
  put_internal-Grows key value = stage_operation-Grows (encode_put key value) _ _

  pub delete_internal-Grows : (key : Bytes) → Grows t.store (delete_internal key t).1.store
  unfolding delete_internal
  delete_internal-Grows key = stage_operation-Grows (encode_delete key) _ _
