-- ===== src/Engine/Open/Steps.antt =====
-- The steps of opening a file: its header, its repair, and the counters.
use voodoo_store.Prelude.{
  ℕ, ◌+◌, ◌^◌, ◌≤◌, ◌<◌, ◌≡◌, refl, sym, ap, subst, ◌∙◌, true, [], ◌∷◌, ◌++◌, length, take, arith,
  length-append, take-append, ltb, ne→eqb, le→ltb, ltb→le, Bool-cases, inl, inr,
}
use mathlib.Core.List.{append-nil}
use voodoo_store.Prelude.Int.{ℤ}
use voodoo_store.Result.{Result, ok}
use voodoo_store.Bytes.{Bytes}
use voodoo_store.Platform.{Platform}
use voodoo_store.Header.{StoreHeader}
use voodoo_store.Header
use voodoo_store.Header.RoundTrip.{FitsHeader, length-encode, decode-encode_header}
use voodoo_store.Engine.Payload.{EngineError}
use voodoo_store.Engine.Device.{Device, IsSound}
use voodoo_store.Engine.Store.{Store, StoreOptions, zero_metrics}
use voodoo_store.Engine.Recovery.{Recovery, recover}
use voodoo_store.Engine.Durability.Sealing.{sync_file_lem}
use voodoo_store.Engine.Open.{
  open_with_options, load_or_initialize_header, next_counter, repair, set_len, load_header_from,
}

pub next_counter_lem : (max : ℕ) → max + 1 < 2 ^ 64 → next_counter max ≡ ok (max + 1)
unfolding next_counter
next_counter_lem max h = ground arith

pub repair_whole :
    (options : StoreOptions) (n : ℕ) (device : Device)
    → length device.bytes ≤ n
    → repair options n device ≡ (ok tt, device)
unfolding repair
repair_whole options n device h = rw (le→ltb n (length device.bytes) h)

-- Where the option asks for it, what stands behind the valid end is cut off.
pub repair_lem :
    (options : StoreOptions) (whole tail : Bytes) (device : Device) (n : ℕ)
    → n ≡ length whole
    → options.repair_torn_tail ≡ true
    → IsSound device
    → device.bytes ≡ whole ++ tail
    → ((repair options n device).0 ≡ ok tt)
      × ((repair options n device).1.bytes ≡ whole)
      × IsSound (repair options n device).1
unfolding repair
repair_lem options whole tail device n en asked sound e =
    elim (Bool-cases (ltb n (length device.bytes))) [
      | inl longer ↦
          let cut = set_len n device in
          let (synced, bytes, sound') =
            sync_file_lem options.durability cut
              (record { writes = sound.writes; syncs = sound.syncs }) in
          rw (longer, asked) (synced, bytes ∙ ap (take n) e ∙ take-append whole tail n en, sound')
      | inr same ↦ rw same (
        refl,
        e
            ∙ no_tail whole tail
                (omega (arith, en, ltb→le, ap (λ bs. length bs) e, length-append whole tail)),
        sound,
      )
    ]
  where
    no_tail : (xs ys : Bytes) → length ys ≡ 0 → xs ++ ys ≡ xs
    no_tail xs [] z = append-nil xs
    no_tail xs (y ∷ ys) z = absurd (omega arith)

module _ ⦃d : Platform⦄ where
  pub load_header_from_lem :
      (identity : Result EngineError (Bytes × ℤ)) (h : StoreHeader) (rest : Bytes) (device : Device)
      → FitsHeader h
      → h.format_major ≡ 1
      → load_header_from identity (Header.encode h ++ rest) device ≡ (ok h, device)
  unfolding load_header_from
  load_header_from_lem identity h rest device f major =
      let size : 64 ≤ length (Header.encode h ++ rest) =
        omega (arith, length-append (Header.encode h) rest, length-encode h f) in
      rw
        (
          ne→eqb (length (Header.encode h ++ rest)) 0 (omega arith),
          le→ltb (length (Header.encode h ++ rest)) 64 size,
          take-append (Header.encode h) rest 64 (sym (length-encode h f)),
          decode-encode_header h f,
        )
        (ground arith)

  pub load_header :
      (identity : Result EngineError (Bytes × ℤ)) (h : StoreHeader) (rest : Bytes) (device : Device)
      → FitsHeader h
      → h.format_major ≡ 1
      → device.bytes ≡ Header.encode h ++ rest
      → load_or_initialize_header identity device ≡ (ok h, device)
  unfolding load_or_initialize_header
  load_header identity h rest device f major e =
      subst (λ bytes. load_header_from identity bytes device ≡ (ok h, device)) (sym e)
        (load_header_from_lem identity h rest device f major)

  -- The store that opening makes of what recovery returned.
  abbrev pub store_of : StoreOptions → Device → StoreHeader → Recovery → Store
  store_of options device h recovery = record {
    device = device;
    header = h;
    options = options;
    state = recovery.state;
    next_tx_id = recovery.max_tx_id + 1;
    next_sequence = recovery.max_sequence + 1;
    metrics = record zero_metrics { recovery_records = recovery.records };
  }

  -- What opening a file does, once its header and its log are read.
  pub opened :
      (options : StoreOptions) (identity : Result EngineError (Bytes × ℤ)) (device device' : Device)
      (h : StoreHeader) (recovery : Recovery)
      → load_or_initialize_header identity device ≡ (ok h, device')
      → recover device'.bytes ≡ ok recovery
      → (repair options recovery.valid_end device').0 ≡ ok tt
      → recovery.max_tx_id + 1 < 2 ^ 64
      → recovery.max_sequence + 1 < 2 ^ 64
      → (open_with_options options identity device).0
        ≡ ok (store_of options (repair options recovery.valid_end device').1 h recovery)
  unfolding open_with_options
  opened options identity device device' h recovery loaded recovered repaired tx seq = rw (
    loaded,
    recovered,
    repaired,
    next_counter_lem recovery.max_tx_id tx,
    next_counter_lem recovery.max_sequence seq,
  )
