-- ===== src/Engine/Durability/Commit.antt =====
-- A commit applies the transaction's operations and its change feed to the state, or changes nothing;
-- either way the file replays to the state.
use voodoo_store.Prelude.{◌≡◌, refl, ap₂, subst, ◌∙◌, List, ◌++◌, arith}
use voodoo_store.Result.{Result, ok, err}
use voodoo_store.Exec.{continue_ind}
use voodoo_store.Platform.{Platform}
use voodoo_store.Engine.Payload.{State, Operation, EngineError, apply_operations}
use voodoo_store.Engine.Store.{Store, StoreMetrics}
use voodoo_store.Engine.Quota.{check_namespace_quota}
use voodoo_store.Engine.Transaction.{Transaction, ensure_open}
use voodoo_store.Engine.Commit.{commit_inner, commit, seal, stage_if, count_error}
use voodoo_store.Engine.Durability.Logged.{IsLogged-quiet}
use voodoo_store.Engine.Durability.Staging.{IsOpen}
use voodoo_store.Engine.Durability.Sealing.{HasLog, SealPost, seal-SealPost}
use voodoo_store.Engine.Durability.Feed.{OnlyFeed, FeedPost, stage_if-FeedPost}

module _ ⦃d : Platform⦄ where
  -- A state that the transaction may have left: all of it, with its change feed, or none of it.
  pub record Applied (t : Transaction) (state : State) : Type 0 where
    pub extra : List Operation
    pub feed : OnlyFeed extra
    pub state_eq : state ≡ apply_operations t.store.state (t.operations ++ extra)

  abbrev pub CommitPost : Transaction → Result EngineError (Unit {0}) → Store → Type 0
  CommitPost t (ok _) s' = HasLog s' × Applied t s'.state
  CommitPost t (err _) s' = HasLog s' × (s'.state ≡ t.store.state)

  abbrev InnerPost : Transaction → Result EngineError (Unit {0}) → Transaction → Type 0
  InnerPost t r t' = CommitPost t r t'.store

  -- Staging and sealing, together.
  staged_and_sealed :
      (t u : Transaction)
      → FeedPost t u
      → (r : Result EngineError (Unit {0})) (s' : Store) → SealPost u r s'
      → CommitPost t r s'
  staged_and_sealed t u p (ok _) s' h = (
    h.0,
    record {
      extra = p.fed.extra;
      feed = p.fed.feed;
      state_eq = h.1 ∙ ap₂ apply_operations p.continues.state p.fed.operations;
    },
  )
  staged_and_sealed t u p (err _) s' q = (
    record { at = p.opened.at; logged = IsLogged-quiet u.store s' p.opened.at p.opened.logged q },
    q.same.state ∙ p.continues.state,
  )

  refused : (t u : Transaction) (e : EngineError) → FeedPost t u → CommitPost t (err e) u.store
  refused t u e p = (record { at = p.opened.at; logged = p.opened.logged }, p.continues.state)

  sealed_as :
      (u : Transaction)
      → IsOpen u
      → (r : Result EngineError (Unit {0})) → (seal u.tx_id u.operations u.store).0 ≡ r
      → SealPost u r (seal u.tx_id u.operations u.store).1
  sealed_as u o r e =
      subst (λ x. SealPost u x (seal u.tx_id u.operations u.store).1) e (seal-SealPost u o)

  commit_inner-CommitPost :
      (t : Transaction) → IsOpen t → InnerPost t (commit_inner t).0 (commit_inner t).1
  unfolding commit_inner
  commit_inner-CommitPost t o =
      let u = (stage_if t.emit_cdc t.operations t).1 in
      let p = stage_if-FeedPost t.emit_cdc t.operations t o in
      continue_ind (InnerPost t) (ensure_open t) _ t
        (λ _ _.
          continue_ind (InnerPost t) (stage_if t.emit_cdc t.operations t).0 _ u
            (λ _ _.
              continue_ind (InnerPost t)
                (check_namespace_quota u.store.options.namespace_max_bytes u.store.state
                  u.operations)
                _ u
                (λ _ _.
                  continue_ind (InnerPost t) (seal u.tx_id u.operations u.store).0 _ _
                    (λ a e. staged_and_sealed t u p (ok a) _ (sealed_as u p.opened (ok a) e))
                    (λ error e.
                      staged_and_sealed t u p (err error) _ (sealed_as u p.opened (err error) e)))
                (λ error _. refused t u error p))
            (λ error _. refused t u error p))
        (λ error _. (record { at = o.at; logged = o.logged }, refl))

  -- The metrics are not on the file.
  pub HasLog-metrics :
      (s : Store) (metrics : StoreMetrics) → HasLog s → HasLog (record s { metrics = metrics })
  HasLog-metrics s metrics h = record {
    at = h.at;
    logged = IsLogged-quiet s _ h.at h.logged (record {
      same = record {
        header = refl;
        options = refl;
        state = refl;
        next_tx_id = refl;
        sound = h.logged.sound;
      };
      bytes = refl;
      sequence = omega arith;
      sequence_fits = h.logged.sequence_fits;
    });
  }

  -- A failed commit is counted.
  counted :
      (t : Transaction) (r : Result EngineError (Unit {0})) (s' : Store)
      → CommitPost t r s'
      → CommitPost t r (count_error r s')
  counted t (ok _) s' h = h
  counted t (err _) s' (h, e) = (HasLog-metrics s' _ h, e)

  -- A commit applies all operations of the transaction, followed by change records, or leaves the
  -- state as it was; in both cases the file replays to the state in memory.
  pub commit-CommitPost : (t : Transaction) → IsOpen t → CommitPost t (commit t).0 (commit t).1
  unfolding commit
  commit-CommitPost t o =
      counted t (commit_inner t).0 (commit_inner t).1.store (commit_inner-CommitPost t o)
