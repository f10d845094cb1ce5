-- ===== src/Engine/Durability/Staging.antt =====
-- `put_internal`, `delete_internal` and the change feed inside a transaction: the log follows the
-- transaction's operations, and the committed state does not move.
use voodoo_store.Prelude.{ℕ, ◌≡◌, refl, subst, ◌∙◌, List, [], ◌∷◌, ◌++◌}
use voodoo_store.Result.{Result, ok, err}
use voodoo_store.Exec.{continue_ind}
use voodoo_store.Bytes.{Bytes}
use voodoo_store.Platform.{Platform}
use voodoo_store.Log.{RecordKind}
use voodoo_store.Log
use voodoo_store.Engine.Payload.{
  Operation, put, delete, EngineError, encode_put, encode_delete, decode_put-encode_put,
  decode_delete-encode_delete,
}
use voodoo_store.Engine.Store.{Store, append}
use voodoo_store.Engine.Transaction.{
  Transaction, ensure_open, stage_operation, put_internal, delete_internal,
}
use voodoo_store.Engine.Recovery.{Replayed, replay_kind, push_pending}
use voodoo_store.Engine.Durability.Append.{
  SameStore, IsQuiet, HasWritten, AppendPost, append-AppendPost, entry_of,
}
use voodoo_store.Engine.Durability.Logged.{IsLogged, IsStaged, IsLogged-quiet, IsLogged-staged}

module _ ⦃d : Platform⦄ where
  pub record IsOpen (t : Transaction) : Type 0 where
    pub at : Replayed
    pub logged : IsLogged t.store at
    pub staged : IsStaged t at

-- What a transaction keeps until it is committed.
pub record Continues (t t' : Transaction) : Type 0 where
  pub header : t'.store.header ≡ t.store.header
  pub options : t'.store.options ≡ t.store.options
  pub state : t'.store.state ≡ t.store.state
  pub next_tx_id : t'.store.next_tx_id ≡ t.store.next_tx_id
  pub tx_id : t'.tx_id ≡ t.tx_id

pub Continues-refl : (t : Transaction) → Continues t t
Continues-refl t = record {
  header = refl;
  options = refl;
  state = refl;
  next_tx_id = refl;
  tx_id = refl;
}

pub Continues-trans : (t u v : Transaction) → Continues t u → Continues u v → Continues t v
Continues-trans t u v p q = record {
  header = q.header ∙ p.header;
  options = q.options ∙ p.options;
  state = q.state ∙ p.state;
  next_tx_id = q.next_tx_id ∙ p.next_tx_id;
  tx_id = q.tx_id ∙ p.tx_id;
}

SameStore-Continues :
    (t : Transaction) (s' : Store)
    → SameStore t.store s'
    → (operations : List Operation) → Continues t (record t { store = s'; operations = operations })
SameStore-Continues t s' same operations = record {
  header = same.header;
  options = same.options;
  state = same.state;
  next_tx_id = same.next_tx_id;
  tx_id = refl;
}

module _ ⦃d : Platform⦄ where
  abbrev pub StagePost :
      Operation → Transaction → Result EngineError (Unit {0}) → Transaction → Type 0
  StagePost operation t (ok _) t' =
      IsOpen t' × Continues t t' × (t'.operations ≡ t.operations ++ operation ∷ [])
  StagePost operation t (err _) t' = IsOpen t' × Continues t t' × (t'.operations ≡ t.operations)

  -- Recovery decodes the payload to the operation.
  abbrev Decodes : RecordKind → Bytes → Operation → Type 0
  Decodes kind payload operation =
      (tx_id : ℕ) (r : Replayed)
      → replay_kind kind tx_id payload r
        ≡ ok (record r { pending = push_pending r.pending tx_id operation })

  pub IsOpen-quiet :
      (t : Transaction) (s' : Store)
      → IsOpen t
      → IsQuiet t.store s'
      → IsOpen (record t { store = s' }) × Continues t (record t { store = s' })
  IsOpen-quiet t s' o q = (
    record {
      at = o.at;
      logged = IsLogged-quiet t.store s' o.at o.logged q;
      staged = record {
        operations = o.staged.operations;
        fresh = o.staged.fresh;
        below = rw q.same.next_tx_id o.staged.below;
      };
    },
    SameStore-Continues t s' q.same t.operations,
  )

module _ ⦃d : Platform⦄ (kind : RecordKind) (operation : Operation) (t : Transaction)
    (o : IsOpen t) where
  IsOpen-written :
      (payload : Bytes) (s' : Store)
      → HasWritten (entry_of kind t.tx_id payload t.store) t.store s'
      → Decodes kind payload operation
      → let t' = record t { store = s'; operations = t.operations ++ operation ∷ [] } in
        IsOpen t' × Continues t t' × (t'.operations ≡ t.operations ++ operation ∷ [])
  IsOpen-written payload s' w decodes =
      let (logged, staged) =
        IsLogged-staged kind payload operation t s' o.at o.logged o.staged w (decodes t.tx_id) in
      (
        record { at = _; logged = logged; staged = staged },
        SameStore-Continues t s' w.same (t.operations ++ operation ∷ []),
        refl,
      )

  appended :
      (payload : Bytes) (r : Result EngineError (Unit {0}))
      → (append kind t.tx_id payload t.store).0 ≡ r
      → AppendPost
          (entry_of kind t.tx_id payload t.store)
          t.store
          r
          (append kind t.tx_id payload t.store).1
  appended payload r e =
      subst
        (λ x.
          AppendPost (entry_of kind t.tx_id payload t.store) t.store x
            (append kind t.tx_id payload t.store).1)
        e (append-AppendPost kind t.tx_id payload t.store o.logged.sound o.logged.sequence_fits)

  pub stage_operation-StagePost :
      (encoded : Result EngineError Bytes)
      → ((payload : Bytes) → encoded ≡ ok payload → Decodes kind payload operation)
      → StagePost operation t
          (stage_operation encoded kind operation t).0
          (stage_operation encoded kind operation t).1
  unfolding stage_operation
  stage_operation-StagePost encoded decodes =
      continue_ind P (ensure_open t) _ t
        (λ _ _.
          continue_ind P encoded _ t
            (λ payload e.
              continue_ind P (append kind t.tx_id payload t.store).0 _ _
                (λ _ e'. IsOpen-written payload _ (appended payload (ok _) e') (decodes payload e))
                (λ _ e'.
                  let (open', continues) = IsOpen-quiet t _ o (appended payload (err _) e') in
                  (open', continues, refl)))
            (λ _ _. unchanged))
        (λ _ _. unchanged)
    where
      P : Result EngineError (Unit {0}) → Transaction → Type 0
      P = StagePost operation t

      unchanged : IsOpen t × Continues t t × (t.operations ≡ t.operations)
      unchanged = (o, Continues-refl t, refl)

module _ ⦃d : Platform⦄ (t : Transaction) (o : IsOpen t) where
  -- A put inside a transaction.
  pub put_internal-StagePost :
      (key value : Bytes)
      → StagePost (put key value) t (put_internal key value t).0 (put_internal key value t).1
  unfolding put_internal replay_kind
  put_internal-StagePost key value =
      stage_operation-StagePost Log.put (put key value) t o (encode_put key value)
        (λ payload e tx_id r. rw (decode_put-encode_put key value payload e))

  pub delete_internal-StagePost :
      (key : Bytes) → StagePost (delete key) t (delete_internal key t).0 (delete_internal key t).1
  unfolding delete_internal replay_kind
  delete_internal-StagePost key =
      stage_operation-StagePost Log.delete (delete key) t o (encode_delete key)
        (λ payload e tx_id r. rw (decode_delete-encode_delete key payload e))
