-- ===== src/Ttl/Put.antt =====
-- ttl.rs: what `put_with_ttl` does to the store, and what `get_at` reads after it.
use voodoo_store.Prelude.{
  ◌≡◌, ◌≢◌, refl, sym, ap, subst, ◌∙◌, true, none, some, List, [], ◌∷◌, ◌++◌, length, if◌then◌else◌,
}
use voodoo_store.Prelude.Int.{ℤ, leb_ℤ}
use voodoo_store.Result.{Result, ok, err, >>=-eq-ok, ok_or}
use voodoo_store.Exec.{continue_ind, ◌>>◌, map_error}
use voodoo_store.Bytes.{
  Bytes, starts_with, length-to_le_bytes, from_le_bytes-to_le_bytes, to_be_bytes,
}
use voodoo_store.Bytes.Words.{i64_half, to_bits, Fits, to_bits-lt, from_bits-to_bits, to_u32}
use voodoo_store.Platform.{Platform}
use voodoo_store.Map.{get, insert, key_eq, get-insert_self, get-insert_ne}
use voodoo_store.Engine.Payload.{State, Operation, put, apply_operation, apply_operations}
use voodoo_store.Engine.Store.{Store}
use voodoo_store.Engine.Quota.{ensure_user_key}
use voodoo_store.Engine.Transaction.{put_user, put_internal}
use voodoo_store.Engine.Durability.Sealing.{HasLog}
use voodoo_store.Engine.Durability.Keys.{IsOutside}
use voodoo_store.Engine.Durability.Batch.{
  Stages, Stages-put, Stages-bind, Stages-weaken, Both, BatchPost, transact_from-BatchPost,
}
use voodoo_store.Engine.Durability.UserKeys.{
  OneUser, Stages-put_user, IsUser, ensure_user_key-IsOutside,
}
use voodoo_store.Ttl.{ttl, ttl_at, get_at, put_with_ttl}
use voodoo_store.Ttl.Record.{
  TtlInfo, TtlError, store, ttl_prefix, key_too_large, is_expired, ttl_key, encode_ttl, decode_ttl,
}

pub decode_ttl-encode_ttl :
    (info : TtlInfo) → Fits i64_half info.expires_at_ms → decode_ttl (encode_ttl info) ≡ ok info
unfolding decode_ttl encode_ttl
decode_ttl-encode_ttl info f =
    rw
      (
        length-to_le_bytes 8 (to_bits i64_half info.expires_at_ms),
        from_le_bytes-to_le_bytes 8 (to_bits i64_half info.expires_at_ms)
            (to_bits-lt i64_half info.expires_at_ms f),
      )
      (ap (λ (z : ℤ). ok (record { expires_at_ms = z }))
        (from_bits-to_bits i64_half info.expires_at_ms f))

ttl_key-prefix :
    (key metadata_key : Bytes)
    → ttl_key key ≡ ok metadata_key
    → (rest : Bytes) × (metadata_key ≡ ttl_prefix ++ rest)
unfolding ttl_key
ttl_key-prefix key metadata_key h =
    let (key_len, _, e) = >>=-eq-ok (ok_or (to_u32 (length key)) key_too_large) _ h in
    (to_be_bytes 4 key_len ++ key, ok_inj e)
  where
    ok_inj :
        {x : Bytes} → ◌≡◌ {A = Result TtlError Bytes} (ok x) (ok metadata_key) → metadata_key ≡ x
    ok_inj e = cc

pub ttl_key-IsOutside :
    (key metadata_key : Bytes) → ttl_key key ≡ ok metadata_key → IsOutside metadata_key
unfolding starts_with
ttl_key-IsOutside key metadata_key h =
    let (rest, e) = ttl_key-prefix key metadata_key h in
    subst (λ bs. IsOutside bs) (sym e) (outside rest)
  where
    outside : (rest : Bytes) → IsOutside (ttl_prefix ++ rest)
    outside rest = refl

-- A key of the user is no metadata key.
ttl_key-ne :
    (key j metadata_key : Bytes) → IsUser key → ttl_key j ≡ ok metadata_key → metadata_key ≢ key
unfolding starts_with ensure_user_key
ttl_key-ne key j metadata_key u h same =
    let (rest, e) = ttl_key-prefix j metadata_key h in
    internal rest (subst (λ bs. IsUser bs) (sym same ∙ e) u)
  where
    internal : (rest : Bytes) → IsUser (ttl_prefix ++ rest) → ⊥
    internal rest v = cc

-- The two writes.
abbrev Writes : Bytes → Bytes → Bytes → ℤ → List Operation → Type 0
Writes key metadata_key value expires operations =
    IsUser key
    × (operations
        ≡ put key value ∷ put metadata_key (encode_ttl (record { expires_at_ms = expires })) ∷ [])

module _ ⦃d : Platform⦄ where
  -- The key has the value until it expires, whatever time it is read at, and no key but it and its
  -- metadata has changed.
  pub record Expires (key value : Bytes) (expires_at_ms : ℤ) (s s' : Store) : Type 0 where
    pub reads :
        (now_ms : ℤ)
        → get_at key now_ms s'.state ≡ ok (if leb_ℤ expires_at_ms now_ms then none else some value)
    pub metadata_key : Bytes
    pub encoded : ttl_key key ≡ ok metadata_key
    pub others :
        (j : Bytes) → IsOutside j → key ≢ j → metadata_key ≢ j → get s'.state j ≡ get s.state j

  abbrev pub TtlPost : Bytes → Bytes → ℤ → Store → Result TtlError (Unit {0}) → Store → Type 0
  TtlPost key value expires s (ok _) s' = HasLog s' × Expires key value expires s s'
  TtlPost key value expires s (err _) s' = HasLog s' × (s'.state ≡ s.state)

  module _ (key value metadata_key : Bytes) (expires : ℤ) where
    body-Stages : Stages (Writes key metadata_key value expires) (
        map_error store (put_user key value)
        >> map_error store
            (put_internal metadata_key (encode_ttl (record { expires_at_ms = expires }))))
    body-Stages =
        Stages-weaken joined
          (Stages-bind (Stages-put_user store key value) (λ _. Stages-put store metadata_key _))
      where
        joined :
            (operations : List Operation)
            → Both
                (OneUser store key (put key value))
                (λ ys. ys ≡ put metadata_key (encode_ttl (record { expires_at_ms = expires })) ∷ [])
                operations
            → Writes key metadata_key value expires operations
        joined operations (xs, ys, o, (first, user), second) =
            (user, o ∙ ap (λ x. x ++ ys) first ∙ ap (λ y. put key value ∷ y) second)

    read_back :
        (state : State) (now_ms : ℤ)
        → Fits i64_half expires
        → ttl_key key ≡ ok metadata_key
        → get state key ≡ some value
        → get state metadata_key ≡ some (encode_ttl (record { expires_at_ms = expires }))
        → get_at key now_ms state ≡ ok (if leb_ℤ expires now_ms then none else some value)
    unfolding get_at ttl ttl_at is_expired
    read_back state now_ms f k v m =
        rw (get_at, v, ttl, k, m, decode_ttl-encode_ttl (record { expires_at_ms = expires }) f) refl

  module _ (key value metadata_key : Bytes) (expires : ℤ) (s : Store) (f : Fits i64_half expires)
      (encoded : ttl_key key ≡ ok metadata_key) where
    stored_ttl :
        (r : Result TtlError (Unit {0})) (s' : Store)
        → BatchPost (Writes key metadata_key value expires) s r s'
        → TtlPost key value expires s r s'
    unfolding apply_operations apply_operation
    stored_ttl (err _) s' p = p
    stored_ttl (ok _) s' (h, (operations, (user, o), reads)) = (
      h,
      record {
        reads = λ now_ms.
            read_back key value metadata_key expires s'.state now_ms f encoded
              (after key (ensure_user_key-IsOutside key user)
                ∙ get-insert_ne (insert s.state key value) metadata_key key info
                    (ttl_key-ne key key metadata_key user encoded)
                ∙ get-insert_self s.state key value)
              (after metadata_key (ttl_key-IsOutside key metadata_key encoded)
                ∙ get-insert_self (insert s.state key value) metadata_key info);
        metadata_key = metadata_key;
        encoded = encoded;
        others = λ j outside ne ne'.
            after j outside
            ∙ get-insert_ne (insert s.state key value) metadata_key j info ne'
            ∙ get-insert_ne s.state key j value ne;
      },
    )
      where
        info : Bytes
        info = encode_ttl (record { expires_at_ms = expires })

        after :
            (j : Bytes)
            → IsOutside j
            → get s'.state j ≡ get (insert (insert s.state key value) metadata_key info) j
        after j outside = reads j outside ∙ ap (λ x. get (apply_operations s.state x) j) o

  -- `put_with_ttl` with a time that fits i64, on a store whose file holds its state: after success a
  -- read of the key at any time finds the value before the time of expiry and nothing from then on, and
  -- no key outside the change feed but it and its metadata has changed; after an error no key has.
  pub put_with_ttl-TtlPost :
      (key value : Bytes) (expires_at_ms : ℤ) (s : Store)
      → Fits i64_half expires_at_ms
      → HasLog s
      → TtlPost key value expires_at_ms s
          (put_with_ttl key value expires_at_ms s).0
          (put_with_ttl key value expires_at_ms s).1
  unfolding put_with_ttl
  put_with_ttl-TtlPost key value expires_at_ms s f h =
      continue_ind (TtlPost key value expires_at_ms s) (ttl_key key) _ s
        (λ metadata_key e. stored_ttl key value metadata_key expires_at_ms s f e _ _ (
          transact_from-BatchPost (Writes key metadata_key value expires_at_ms) store true _ s
            (body-Stages key value metadata_key expires_at_ms) h))
        (λ _ _. (h, refl))
