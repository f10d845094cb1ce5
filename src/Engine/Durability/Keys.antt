-- ===== src/Engine/Durability/Keys.antt =====
-- engine.rs: what a transaction of one operation, as `Store::put` and `Store::delete`, does to the keys
-- outside the change feed.
use voodoo_store.Prelude.{◌≡◌, ◌≢◌, refl, ap, ap₂, ◌∙◌, Bool, true, false, List, [], ◌∷◌, ◌++◌}
use voodoo_store.Result.{Result, ok, err}
use voodoo_store.Exec.{Exec}
use voodoo_store.Bytes.{Bytes, starts_with}
use voodoo_store.Platform.{Platform}
use voodoo_store.Map.{get, insert, key_eq, get-insert_ne}
use voodoo_store.Engine.Payload.{
  State, Operation, put, delete, EngineError, apply_operation, apply_operations,
}
use voodoo_store.Engine.Store.{Store}
use voodoo_store.Engine.Transaction.{Transaction, begin_with_cdc, put_internal, delete_internal}
use voodoo_store.Engine.Commit.{
  commit, finish_with, run_in, transact, put_internal_key, delete_internal_key,
}
use voodoo_store.Engine.Durability.Staging.{
  IsOpen, StagePost, put_internal-StagePost, delete_internal-StagePost,
}
use voodoo_store.Engine.Durability.Sealing.{HasLog}
use voodoo_store.Engine.Durability.Feed.{OnlyFeed}
use voodoo_store.Engine.Durability.Commit.{CommitPost, commit-CommitPost}
use voodoo_store.Engine.Durability.History.{BeginPost, begin-BeginPost}
use voodoo_store.Cdc.Record.{cdc_prefix}

-- A key that the change feed does not use.
abbrev pub IsOutside : Bytes → Type 0
IsOutside key = starts_with key cdc_prefix ≡ false

feed_ne : (key j : Bytes) → starts_with key cdc_prefix ≡ true → IsOutside j → key ≢ j
feed_ne key j h k e = cc

pub get-apply_feed :
    (operations : List Operation) (state : State) (j : Bytes)
    → OnlyFeed operations
    → IsOutside j
    → get (apply_operations state operations) j ≡ get state j
unfolding apply_operations apply_operation
get-apply_feed [] state j h k = refl
get-apply_feed (put key value ∷ operations) state j (f, h) k =
    get-apply_feed operations (insert state key value) j h k
    ∙ get-insert_ne state key j value (feed_ne key j f k)
get-apply_feed (delete key ∷ operations) state j h k = absurd h

module _ ⦃d : Platform⦄ where
  -- All keys outside the feed read as after the operation, or nothing has changed.
  abbrev pub KeyPost : Operation → Store → Result EngineError (Unit {0}) → Store → Type 0
  KeyPost operation s (ok _) s' =
      HasLog s'
      × ((j : Bytes) → IsOutside j → get s'.state j ≡ get (apply_operation s.state operation) j)
  KeyPost operation s (err _) s' = HasLog s' × (s'.state ≡ s.state)

  -- `t` is the transaction with its one operation staged.
  committed :
      (operation : Operation) (s : Store) (t : Transaction)
      → t.store.state ≡ s.state
      → t.operations ≡ operation ∷ []
      → (r : Result EngineError (Unit {0})) (s' : Store) → CommitPost t r s'
      → KeyPost operation s r s'
  unfolding apply_operations
  committed operation s t e o (err _) s' (h, same) = (h, same ∙ e)
  committed operation s t e o (ok _) s' (h, a) = (
    h,
    λ j outside.
        ap (λ x. get x j) (a.state_eq ∙ ap₂ apply_operations e (ap (λ x. x ++ a.extra) o))
        ∙ get-apply_feed a.extra (apply_operation s.state operation) j a.feed outside,
  )

  module _ (operation : Operation) (s : Store) where
    finished :
        (u : Transaction)
        → u.store.state ≡ s.state
        → u.operations ≡ []
        → (r : Result EngineError (Unit {0})) (t : Transaction) → StagePost operation u r t
        → KeyPost operation s (finish_with r t).0 (finish_with r t).1
    finished u e o (ok _) t (opened, continues, staged) =
        committed operation s t (continues.state ∙ e) (staged ∙ ap (λ x. x ++ operation ∷ []) o)
          (commit t).0 (commit t).1 (commit-CommitPost t opened)
    finished u e o (err _) t (opened, continues, staged) =
        (record { at = opened.at; logged = opened.logged }, continues.state ∙ e)

    transact-KeyPost :
        (body : Exec Transaction EngineError (Unit {0})) (emit_cdc : Bool)
        → ((t : Transaction) → IsOpen t → StagePost operation t (body t).0 (body t).1)
        → HasLog s
        → KeyPost operation s (transact emit_cdc body s).0 (transact emit_cdc body s).1
    unfolding transact
    transact-KeyPost body emit_cdc staging h =
        from (begin_with_cdc emit_cdc s).0 (begin_with_cdc emit_cdc s).1
          (begin-BeginPost emit_cdc s h)
      where
        from :
            (r : Result EngineError Transaction) (s' : Store)
            → BeginPost s r s'
            → KeyPost operation s (run_in body r s').0 (run_in body r s').1
        from (err _) s' e = rw e (h, refl)
        from (ok t) s' (o, e, empty) = finished t e empty (body t).0 (body t).1 (staging t o)

  -- `Store::put_internal` on a store whose file holds its state: after success every key outside the
  -- change feed reads as after the put, after an error no key has changed.
  pub put_internal_key-KeyPost :
      (key value : Bytes) (s : Store)
      → HasLog s
      → KeyPost (put key value) s (put_internal_key key value s).0 (put_internal_key key value s).1
  unfolding put_internal_key
  put_internal_key-KeyPost key value s =
      transact-KeyPost (put key value) s (put_internal key value) true
        (λ t o. put_internal-StagePost t o key value)

  -- The same of `Store::delete_internal`.
  pub delete_internal_key-KeyPost :
      (key : Bytes) (s : Store)
      → HasLog s
      → KeyPost (delete key) s (delete_internal_key key s).0 (delete_internal_key key s).1
  unfolding delete_internal_key
  delete_internal_key-KeyPost key s =
      transact-KeyPost (delete key) s (delete_internal key) true
        (λ t o. delete_internal-StagePost t o key)
