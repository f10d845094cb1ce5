-- ===== src/Engine/Durability/Feed.antt =====
-- The change feed that a commit stages: puts under the feed's own prefix, and nothing else.
use voodoo_store.Prelude.{
  ℕ, ◌≡◌, refl, sym, ap, ◌∙◌, Bool, true, false, none, some, Option, List, [], ◌∷◌, ◌++◌,
}
use mathlib.Core.List.{append_assoc, append-nil}
use voodoo_store.Result.{Result, ok, err, map_err}
use voodoo_store.Exec.{continue_ind}
use voodoo_store.Bytes.{Bytes, starts_with}
use voodoo_store.Platform.{Platform}
use voodoo_store.Engine.Payload.{Operation, put, delete, EngineError}
use voodoo_store.Engine.Transaction.{Transaction, put_internal}
use voodoo_store.Engine.Commit.{stage_if}
use voodoo_store.Engine.Durability.Staging.{
  IsOpen, Continues, Continues-refl, Continues-trans, StagePost, put_internal-StagePost,
}
use voodoo_store.Cdc.Record.{
  ChangeRecord, cdc_prefix, change_key, change_tx_prefix, encode_change, map_cdc_error,
}
use voodoo_store.Cdc.Stage.{change_of, stage_change, stage_from, stage_changes}

-- Puts of change records only.
abbrev pub OnlyFeed : List Operation → Type 0
OnlyFeed [] = Unit {0}
OnlyFeed (put key value ∷ operations) = (starts_with key cdc_prefix ≡ true) × OnlyFeed operations
OnlyFeed (delete key ∷ operations) = ⊥

OnlyFeed-append : (xs ys : List Operation) → OnlyFeed xs → OnlyFeed ys → OnlyFeed (xs ++ ys)
OnlyFeed-append [] ys h k = k
OnlyFeed-append (put key value ∷ xs) ys h k = (h.0, OnlyFeed-append xs ys h.1 k)
OnlyFeed-append (delete key ∷ xs) ys h k = absurd h

change_key-starts_with :
    (tx_id sequence : ℕ) → starts_with (change_key tx_id sequence) cdc_prefix ≡ true
unfolding starts_with change_key change_tx_prefix
change_key-starts_with tx_id sequence = refl

-- `t'` has the operations of `t` and change records after them.
pub record Fed (t t' : Transaction) : Type 0 where
  pub extra : List Operation
  pub operations : t'.operations ≡ t.operations ++ extra
  pub feed : OnlyFeed extra

Fed-refl : (t t' : Transaction) → t'.operations ≡ t.operations → Fed t t'
Fed-refl t t' e = record { extra = []; operations = e ∙ sym (append-nil t.operations); feed = tt }

Fed-trans : (t u v : Transaction) → Fed t u → Fed u v → Fed t v
Fed-trans t u v p q = record {
  extra = p.extra ++ q.extra;
  operations =
      q.operations
      ∙ ap (λ xs. xs ++ q.extra) p.operations
      ∙ append_assoc t.operations p.extra q.extra;
  feed = OnlyFeed-append p.extra q.extra p.feed q.feed;
}

module _ ⦃d : Platform⦄ where
  -- What staging keeps, whether it fails or not.
  pub record FeedPost (t t' : Transaction) : Type 0 where
    pub opened : IsOpen t'
    pub continues : Continues t t'
    pub fed : Fed t t'

  FeedPost-refl : (t : Transaction) → IsOpen t → FeedPost t t
  FeedPost-refl t o = record { opened = o; continues = Continues-refl t; fed = Fed-refl t t refl }

  FeedPost-trans : (t u v : Transaction) → FeedPost t u → FeedPost u v → FeedPost t v
  FeedPost-trans t u v p q = record {
    opened = q.opened;
    continues = Continues-trans t u v p.continues q.continues;
    fed = Fed-trans t u v p.fed q.fed;
  }

  put_change-FeedPost :
      (t : Transaction) (tx_id sequence : ℕ) (encoded : Bytes) (r : Result EngineError (Unit {0}))
      (t' : Transaction)
      → StagePost (put (change_key tx_id sequence) encoded) t r t'
      → FeedPost t t'
  put_change-FeedPost t tx_id sequence encoded (ok _) t' (opened, continues, operations) = record {
    opened = opened;
    continues = continues;
    fed = record {
      extra = put (change_key tx_id sequence) encoded ∷ [];
      operations = operations;
      feed = (change_key-starts_with tx_id sequence, tt);
    };
  }
  put_change-FeedPost t tx_id sequence encoded (err _) t' (opened, continues, operations) = record {
    opened = opened;
    continues = continues;
    fed = Fed-refl t t' operations;
  }

  pub stage_change-FeedPost :
      (sequence : ℕ) (change : Option ChangeRecord) (t : Transaction)
      → IsOpen t
      → FeedPost t (stage_change sequence change t).1
  unfolding stage_change
  stage_change-FeedPost sequence none t o = FeedPost-refl t o
  stage_change-FeedPost sequence (some change) t o =
      continue_ind {A = Bytes} {B = ℕ} (λ _ t'. FeedPost t t')
        (map_err map_cdc_error (encode_change change)) _ t
        (λ encoded _.
          let key = change_key change.tx_id sequence in
          let post =
            put_change-FeedPost t change.tx_id sequence encoded (put_internal key encoded t).0
              (put_internal key encoded t).1 (put_internal-StagePost t o key encoded) in
          continue_ind {A = Unit {0}} {B = ℕ} (λ _ t'. FeedPost t t') (put_internal key encoded t).0
            _ (put_internal key encoded t).1 (λ _ _. post) (λ _ _. post))
        (λ _ _. FeedPost-refl t o)

  pub stage_from-FeedPost :
      (sequence : ℕ) (operations : List Operation) (t : Transaction)
      → IsOpen t
      → FeedPost t (stage_from sequence operations t).1
  unfolding stage_from
  stage_from-FeedPost sequence [] t o = FeedPost-refl t o
  stage_from-FeedPost sequence (operation ∷ operations) t o =
      let step = stage_change sequence (change_of t.tx_id sequence operation) t in
      let first = stage_change-FeedPost sequence (change_of t.tx_id sequence operation) t o in
      continue_ind {A = ℕ} {B = Unit {0}} (λ _ t'. FeedPost t t') step.0 _ step.1
        (λ next _.
          FeedPost-trans t step.1 _ first (stage_from-FeedPost next operations step.1 first.opened))
        (λ _ _. first)

  -- Staging the change feed keeps the transaction open and adds change records only.
  pub stage_changes-FeedPost :
      (operations : List Operation) (t : Transaction)
      → IsOpen t
      → FeedPost t (stage_changes operations t).1
  unfolding stage_changes
  stage_changes-FeedPost operations t o = stage_from-FeedPost 0 operations t o

  pub stage_if-FeedPost :
      (emit_cdc : Bool) (operations : List Operation) (t : Transaction)
      → IsOpen t
      → FeedPost t (stage_if emit_cdc operations t).1
  unfolding stage_if
  stage_if-FeedPost true operations t o = stage_changes-FeedPost operations t o
  stage_if-FeedPost false operations t o = FeedPost-refl t o
