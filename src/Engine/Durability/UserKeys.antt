-- ===== src/Engine/Durability/UserKeys.antt =====
-- engine.rs: `Transaction::put` and `Transaction::delete`, which take only keys of the user.
use voodoo_store.Prelude.{◌≡◌, refl, Bool, true, List, [], ◌∷◌, arith, ap, subst, ◌∙◌}
use voodoo_store.Result.{Result, ok, err, map_err}
use voodoo_store.Exec.{map_error, continue_ind, Exec}
use voodoo_store.Bytes.{Bytes, starts_with-append}
use voodoo_store.Platform.{Platform}
use voodoo_store.Engine.Payload.{
  Operation, put, delete, EngineError, apply_operation, apply_operations,
}
use voodoo_store.Engine.Quota.{ensure_user_key, internal_key_prefix}
use voodoo_store.Engine.Transaction.{Transaction, put_user, delete_user, begin_with_cdc}
use voodoo_store.Engine.Durability.Staging.{Continues-refl}
use voodoo_store.Engine.Durability.Keys.{IsOutside}
use voodoo_store.Engine.Durability.Batch.{
  Stages, StagesPost, Stages-put, Stages-delete, Stages-weaken, BatchPost, transact_from-BatchPost,
}
use voodoo_store.Engine.Commit.{
  commit, finish_with, run_in, transact, finish_from, run_from, transact_from,
}
use voodoo_store.Engine.Store.{Store}
use voodoo_store.Engine.Durability.Sealing.{HasLog}
use voodoo_store.Map.{get, key_eq}

abbrev pub IsUser : Bytes → Type 0
IsUser key = ensure_user_key key ≡ ok tt

-- A key of the user is no key of the change feed.
pub ensure_user_key-IsOutside : (key : Bytes) → IsUser key → IsOutside key
unfolding ensure_user_key
ensure_user_key-IsOutside key h = ground (
  arith,
  starts_with-append key internal_key_prefix
      (b'c' ∷ b'd' ∷ b'c' ∷ b':' ∷ b'c' ∷ b'h' ∷ b'a' ∷ b'n' ∷ b'g' ∷ b'e' ∷ b':' ∷ []),
)

module _ ⦃d : Platform⦄ {E : Type 0} (from : EngineError → E) where
  -- One write under a key of the user.
  abbrev pub OneUser : Bytes → Operation → List Operation → Type 0
  OneUser key operation operations = (operations ≡ operation ∷ []) × IsUser key

  pub Stages-put_user :
      (key value : Bytes)
      → Stages (OneUser key (put key value)) (map_error from (put_user key value))
  unfolding put_user
  Stages-put_user key value = record {
    at = λ t o.
        continue_ind (λ r t'. StagesPost (OneUser key (put key value)) t (map_err from r) t')
          (ensure_user_key key) _ t
          (λ u e. (Stages-weaken (λ operations same. (same, e)) (Stages-put from key value)).at t o)
          (λ _ _. (o, Continues-refl t));
  }

  pub Stages-delete_user :
      (key : Bytes) → Stages (OneUser key (delete key)) (map_error from (delete_user key))
  unfolding delete_user
  Stages-delete_user key = record {
    at = λ t o.
        continue_ind (λ r t'. StagesPost (OneUser key (delete key)) t (map_err from r) t')
          (ensure_user_key key) _ t
          (λ u e. (Stages-weaken (λ operations same. (same, e)) (Stages-delete from key)).at t o)
          (λ _ _. (o, Continues-refl t));
  }

map_err-id : {E A : Type 0} (r : Result E A) → map_err (λ e. e) r ≡ r
map_err-id (ok a) = refl
map_err-id (err e) = refl

module _ ⦃d : Platform⦄ where
  finish_from-id :
      (r : Result EngineError (Unit {0})) (t : Transaction)
      → finish_from (λ e. e) r t ≡ finish_with r t
  finish_from-id (ok _) t = ap (λ r. (r, (commit t).1)) (map_err-id (commit t).0)
  finish_from-id (err e) t = refl

  run_from-id :
      (body : Exec Transaction EngineError (Unit {0})) (r : Result EngineError Transaction)
      (s : Store)
      → run_from (λ e. e) body r s ≡ run_in body r s
  run_from-id body (ok t) s = finish_from-id (body t).0 (body t).1
  run_from-id body (err e) s = refl

  Stages-id :
      {P : List Operation → Type 0} {m : Exec Transaction EngineError (Unit {0})}
      → Stages P (map_error (λ e. e) m)
      → Stages P m
  Stages-id {P} {m} h = record {
    at = λ t o. subst (λ r. StagesPost P t r (m t).1) (map_err-id (m t).0) (h.at t o);
  }

  -- The transaction of a method of the store itself.
  pub transact-BatchPost :
      (P : List Operation → Type 0) (emit_cdc : Bool)
      (body : Exec Transaction EngineError (Unit {0})) (s : Store)
      → Stages P (map_error (λ e. e) body)
      → HasLog s
      → BatchPost P s (transact emit_cdc body s).0 (transact emit_cdc body s).1
  unfolding transact transact_from
  transact-BatchPost P emit_cdc body s staging h =
      subst (λ (p : Result EngineError (Unit {0}) × Store). BatchPost P s p.0 p.1)
        (run_from-id body (begin_with_cdc emit_cdc s).0 (begin_with_cdc emit_cdc s).1)
        (transact_from-BatchPost P (λ e. e) emit_cdc body s (Stages-id staging) h)

  -- What one write of a user does.
  abbrev pub UserPost : Bytes → Operation → Store → Result EngineError (Unit {0}) → Store → Type 0
  UserPost key operation s (ok _) s' =
      HasLog s'
      × IsUser key
      × ((j : Bytes) → IsOutside j → get s'.state j ≡ get (apply_operation s.state operation) j)
  UserPost key operation s (err _) s' = HasLog s' × (s'.state ≡ s.state)

  one_user :
      (key : Bytes) (operation : Operation) (s : Store) (r : Result EngineError (Unit {0}))
      (s' : Store)
      → BatchPost (OneUser (λ e. e) key operation) s r s'
      → UserPost key operation s r s'
  unfolding apply_operations
  one_user key operation s (err _) s' p = p
  one_user key operation s (ok _) s' (h, (operations, (same, outside), reads)) =
      (h, outside, λ j o. reads j o ∙ ap (λ x. get (apply_operations s.state x) j) same)

  pub put_user-UserPost :
      (key value : Bytes) (s : Store)
      → HasLog s
      → UserPost key
          (put key value)
          s
          (transact true (put_user key value) s).0
          (transact true (put_user key value) s).1
  put_user-UserPost key value s h =
      one_user key (put key value) s _ _
        (transact-BatchPost _ true (put_user key value) s (Stages-put_user (λ e. e) key value) h)

  pub delete_user-UserPost :
      (key : Bytes) (s : Store)
      → HasLog s
      → UserPost key
          (delete key)
          s
          (transact true (delete_user key) s).0
          (transact true (delete_user key) s).1
  delete_user-UserPost key s h =
      one_user key (delete key) s _ _
        (transact-BatchPost _ true (delete_user key) s (Stages-delete_user (λ e. e) key) h)
