-- ===== src/Ttl.antt =====
-- crates/voodoo-store-core/src/ttl.rs: expiry of keys, as metadata under internal keys of the store.
pub mod Record
pub mod Put
mod Tests
use voodoo_store.Prelude.{
  ℕ, suc, Bool, true, false, Option, none, some, List, [], ◌∷◌, ◌++◌, length, ◌==◌, if◌then◌else◌,
}
use voodoo_store.Prelude.Int.{ℤ}
use voodoo_store.Result.{Result, ok, err}
use voodoo_store.Exec.{Exec, pure, lift, gets, ◌>>=◌, ◌>>◌, map_error}
use voodoo_store.Bytes.{Bytes}
use voodoo_store.Platform.{Platform}
use voodoo_store.Map.{get, key_eq}
use voodoo_store.Engine.Payload.{State}
use voodoo_store.Engine.Store.{Store, scan_prefix}
use voodoo_store.Engine.Transaction.{
  Transaction, put_user, put_internal, delete_user, delete_internal,
}
use voodoo_store.Engine.Commit.{transact_from, delete_internal_key}
use voodoo_store.Ttl.Record.{
  TtlInfo, TtlError, store, TtlSweepReport, ttl_prefix, is_expired, ttl_key, decode_ttl_key,
  encode_ttl, decode_ttl,
}

unfoldable pub ttl_at : Option Bytes → Result TtlError (Option TtlInfo)
ttl_at none = ok none
ttl_at (some value) = elim (decode_ttl value) [ ok info ↦ ok (some info) | err error ↦ err error ]

unfoldable pub ttl : Bytes → State → Result TtlError (Option TtlInfo)
unfolding ttl_at
ttl key state = elim (ttl_key key) [
  | ok metadata_key ↦ ttl_at (get state metadata_key)
  | err error ↦ err error
]

-- The last `match` of `get_at`.
abbrev pub live : ℤ → Bytes → Option TtlInfo → Option Bytes
live now_ms value none = some value
live now_ms value (some info) = if is_expired info now_ms then none else some value

unfoldable pub get_at : Bytes → ℤ → State → Result TtlError (Option Bytes)
unfolding ttl
get_at key now_ms state = elim (get state key) [
  | none ↦ ok none
  | some value ↦ elim (ttl key state) [
    | ok info ↦ ok (live now_ms value info)
    | err error ↦ err error
  ]
]

-- An entry of `expired_entries`.
pub record Expired : Type 0 where
  pub metadata_key : Bytes
  pub user_key : Bytes
  pub exists : Bool

abbrev pub has_value : Option Bytes → Bool
has_value none = false
has_value (some value) = true

-- The loop of `purge_expired` over the metadata: the number of entries seen, and the expired ones.
unfoldable pub collect_expired :
    State → ℤ → ℕ → State → ℕ → List Expired → Result TtlError (ℕ × List Expired)
collect_expired state now_ms limit [] scanned found = ok (scanned, found)
collect_expired state now_ms limit ((metadata_key, metadata_value) ∷ metadata) scanned found =
    elim (decode_ttl metadata_value) [
      | err error ↦ err error
      | ok info ↦ elim (is_expired info now_ms) [
        | false ↦ collect_expired state now_ms limit metadata (suc scanned) found
        | true ↦ elim (decode_ttl_key metadata_key) [
          | err error ↦ err error
          | ok user_key ↦
              let found' =
                found
                ++ record {
                  metadata_key = metadata_key;
                  user_key = user_key;
                  exists = has_value (get state user_key);
                }
                  ∷ [] in
              elim (length found' == limit) [
                | true ↦ ok (suc scanned, found')
                | false ↦ collect_expired state now_ms limit metadata (suc scanned) found'
              ]
        ]
      ]
    ]

unfoldable pub count_existing : List Expired → ℕ
count_existing [] = 0
count_existing (entry ∷ entries) =
    let rest = count_existing entries in if entry.exists then suc rest else rest

module _ ⦃d : Platform⦄ where
  unfoldable pub put_with_ttl : Bytes → Bytes → ℤ → Exec Store TtlError (Unit {0})
  put_with_ttl key value expires_at_ms = do
    metadata_key ← lift (ttl_key key)
    transact_from store true (
        map_error store (put_user key value)
        >> map_error store
            (put_internal metadata_key (encode_ttl (record { expires_at_ms = expires_at_ms }))))

  -- `clear_ttl`, once the key is encoded.
  abbrev pub clear_at : Bytes → Option Bytes → Exec Store TtlError Bool
  clear_at metadata_key none = pure false
  clear_at metadata_key (some value) =
      map_error store (delete_internal_key metadata_key) >> pure true

  unfoldable pub clear_ttl : Bytes → Exec Store TtlError Bool
  clear_ttl key = do
    metadata_key ← lift (ttl_key key)
    current ← gets (λ s. get s.state metadata_key)
    clear_at metadata_key current

  abbrev pub delete_value : Expired → Exec Transaction TtlError (Unit {0})
  delete_value entry =
      if entry.exists then map_error store (delete_user entry.user_key) else pure tt

  -- The loop of `purge_expired` over the expired entries.
  unfoldable pub delete_expired : List Expired → Exec Transaction TtlError (Unit {0})
  delete_expired [] = pure tt
  delete_expired (entry ∷ entries) = do
    delete_value entry
    map_error store (delete_internal entry.metadata_key)
    delete_expired entries

  -- `purge_expired`, once the expired entries are known.
  unfoldable pub purge_entries : ℕ × List Expired → Exec Store TtlError TtlSweepReport
  unfolding delete_expired
  purge_entries (scanned, []) = pure (record { scanned = scanned; expired = 0; removed = 0 })
  purge_entries (scanned, entry ∷ entries) = do
    transact_from store true (delete_expired (entry ∷ entries))
    pure (record {
      scanned = scanned;
      expired = length (entry ∷ entries);
      removed = count_existing (entry ∷ entries);
    })

  unfoldable pub purge_expired : ℤ → ℕ → Exec Store TtlError TtlSweepReport
  unfolding purge_entries
  purge_expired now_ms limit =
      if limit == 0 then pure (record { scanned = 0; expired = 0; removed = 0 }) else (do
        collected ←
            gets (λ s. collect_expired s.state now_ms limit (scan_prefix s.state ttl_prefix) 0 [])
        entries ← lift collected
        purge_entries entries)
