-- ===== src/Engine/Durability/Batch.antt =====
-- engine.rs: what a transaction of several operations does to the keys outside the change feed, for
-- the code that opens one transaction, stages its writes and commits.
use mathlib.Core.List.{append_assoc, append-nil}
use voodoo_store.Prelude.{◌≡◌, refl, sym, ap, ap₂, ◌∙◌, Bool, List, [], ◌∷◌, ◌++◌}
use voodoo_store.Result.{Result, ok, err, map_err}
use voodoo_store.Exec.{Exec, pure, lift, ◌>>=◌, map_error, continue, continue_ind}
use voodoo_store.Bytes.{Bytes}
use voodoo_store.Platform.{Platform}
use voodoo_store.Map.{get, key_eq}
use voodoo_store.Engine.Payload.{
  Operation, put, delete, EngineError, apply_operation, apply_operations,
}
use voodoo_store.Engine.Store.{Store}
use voodoo_store.Engine.Transaction.{Transaction, begin_with_cdc, put_internal, delete_internal}
use voodoo_store.Engine.Commit.{commit, finish_from, run_from, transact_from}
use voodoo_store.Engine.Durability.Staging.{
  IsOpen, Continues, Continues-refl, Continues-trans, StagePost, put_internal-StagePost,
  delete_internal-StagePost,
}
use voodoo_store.Engine.Durability.Sealing.{HasLog}
use voodoo_store.Engine.Durability.Commit.{CommitPost, commit-CommitPost}
use voodoo_store.Engine.Durability.History.{BeginPost, begin-BeginPost}
use voodoo_store.Engine.Durability.Keys.{IsOutside, get-apply_feed}

apply_operations-append :
    (state : List (Bytes × Bytes)) (xs ys : List Operation)
    → apply_operations state (xs ++ ys) ≡ apply_operations (apply_operations state xs) ys
unfolding apply_operations
apply_operations-append state [] ys = refl
apply_operations-append state (x ∷ xs) ys = apply_operations-append (apply_operation state x) xs ys

module _ ⦃d : Platform⦄ where
  -- `t'` has the operations of `t` and, after them, some that satisfy `P`.
  pub record Staged (P : List Operation → Type 0) (t t' : Transaction) : Type 0 where
    pub opened : IsOpen t'
    pub continues : Continues t t'
    pub operations : List Operation
    pub good : P operations
    pub staged : t'.operations ≡ t.operations ++ operations

  abbrev pub StagesPost :
      {E A : Type 0} (P : List Operation → Type 0) → Transaction → Result E A → Transaction → Type 0
  StagesPost P t (ok _) t' = Staged P t t'
  StagesPost P t (err _) t' = IsOpen t' × Continues t t'

  -- On success `m` stages operations that satisfy `P`; in any case it leaves the transaction open.
  pub record Stages {E A : Type 0} (P : List Operation → Type 0) (m : Exec Transaction E A)
      : Type 0 where
    pub at : (t : Transaction) → IsOpen t → StagesPost P t (m t).0 (m t).1

module _ ⦃d : Platform⦄ {E A : Type 0} {P : List Operation → Type 0} where
  weaken :
      {Q : List Operation → Type 0}
      → ((operations : List Operation) → P operations → Q operations)
      → (t t' : Transaction) (r : Result E A) → StagesPost P t r t'
      → StagesPost Q t r t'
  weaken h t t' (ok _) p = record {
    opened = p.opened;
    continues = p.continues;
    operations = p.operations;
    good = h p.operations p.good;
    staged = p.staged;
  }
  weaken h t t' (err _) p = p

  pub Stages-weaken :
      {Q : List Operation → Type 0} {m : Exec Transaction E A}
      → ((operations : List Operation) → P operations → Q operations)
      → Stages P m
      → Stages Q m
  Stages-weaken {Q} {m} h s = record { at = λ t o. weaken h t (m t).1 (m t).0 (s.at t o) }

  pub Stages-lift :
      {B : Type 0} (r : Result E B) (f : B → Exec Transaction E A)
      → ((b : B) → r ≡ ok b → Stages P (f b))
      → Stages P (lift r >>= f)
  Stages-lift r f h = record {
    at = λ t o.
        continue_ind (λ x t'. StagesPost P t x t') r f t (λ b e. (h b e).at t o)
          (λ _ _. (o, Continues-refl t));
  }

module _ ⦃d : Platform⦄ {E : Type 0} where
  pub Stages-pure : {A : Type 0} (a : A) → Stages {E = E} (λ operations. operations ≡ []) (pure a)
  Stages-pure a = record {
    at = λ t o. record {
      opened = o;
      continues = Continues-refl t;
      operations = [];
      good = refl;
      staged = sym (append-nil t.operations);
    };
  }

  one_staged :
      (from : EngineError → E) (operation : Operation) (t t' : Transaction)
      (r : Result EngineError (Unit {0}))
      → StagePost operation t r t'
      → StagesPost (λ operations. operations ≡ operation ∷ []) t (map_err from r) t'
  one_staged from operation t t' (ok _) (o, c, e) = record {
    opened = o;
    continues = c;
    operations = operation ∷ [];
    good = refl;
    staged = e;
  }
  one_staged from operation t t' (err _) (o, c, e) = (o, c)

  pub Stages-put :
      (from : EngineError → E) (key value : Bytes)
      → Stages
          (λ operations. operations ≡ put key value ∷ [])
          (map_error from (put_internal key value))
  Stages-put from key value = record {
    at = λ t o.
        one_staged from (put key value) t (put_internal key value t).1 (put_internal key value t).0
          (put_internal-StagePost t o key value);
  }

  pub Stages-delete :
      (from : EngineError → E) (key : Bytes)
      → Stages (λ operations. operations ≡ delete key ∷ []) (map_error from (delete_internal key))
  Stages-delete from key = record {
    at = λ t o.
        one_staged from (delete key) t (delete_internal key t).1 (delete_internal key t).0
          (delete_internal-StagePost t o key);
  }

-- The operations of two steps, in order.
abbrev pub Both : (List Operation → Type 0) → (List Operation → Type 0) → List Operation → Type 0
Both P Q operations =
    (xs : List Operation) × (ys : List Operation) × (operations ≡ xs ++ ys) × P xs × Q ys

module _ ⦃d : Platform⦄ {E B : Type 0} (P Q : List Operation → Type 0) where
  after :
      (t u v : Transaction) (r : Result E B)
      → Staged P t u
      → StagesPost Q u r v
      → StagesPost (Both P Q) t r v
  after t u v (ok _) p q = record {
    opened = q.opened;
    continues = Continues-trans t u v p.continues q.continues;
    operations = p.operations ++ q.operations;
    good = (p.operations, q.operations, refl, p.good, q.good);
    staged =
        q.staged
        ∙ ap (λ xs. xs ++ q.operations) p.staged
        ∙ append_assoc t.operations p.operations q.operations;
  }
  after t u v (err _) p (o, c) = (o, Continues-trans t u v p.continues c)

module _ ⦃d : Platform⦄ {E A B : Type 0} {P Q : List Operation → Type 0} where
  pub Stages-bind :
      {m : Exec Transaction E A} {f : A → Exec Transaction E B}
      → Stages P m
      → ((a : A) → Stages Q (f a))
      → Stages (Both P Q) (m >>= f)
  Stages-bind {m} {f} s h = record { at = λ t o. go t (m t).0 (m t).1 (s.at t o) }
    where
      go :
          (t : Transaction) (r : Result E A) (u : Transaction)
          → StagesPost P t r u
          → StagesPost (Both P Q) t (continue r f u).0 (continue r f u).1
      go t (ok a) u p = after P Q t u (f a u).1 (f a u).0 p ((h a).at u p.opened)
      go t (err e) u p = p

module _ ⦃d : Platform⦄ {E : Type 0} (P : List Operation → Type 0) where
  -- After success every key outside the feed reads as after operations that satisfy `P`; after an
  -- error no key has changed.
  abbrev pub BatchPost : Store → Result E (Unit {0}) → Store → Type 0
  BatchPost s (ok _) s' =
      HasLog s'
      × ((operations : List Operation) × P operations
          × ((j : Bytes)
              → IsOutside j
              → get s'.state j ≡ get (apply_operations s.state operations) j))
  BatchPost s (err _) s' = HasLog s' × (s'.state ≡ s.state)

  committed :
      (from : EngineError → E) (s : Store) (u t : Transaction)
      → u.store.state ≡ s.state
      → u.operations ≡ []
      → Staged P u t
      → (r : Result EngineError (Unit {0})) (s' : Store) → CommitPost t r s'
      → BatchPost s (map_err from r) s'
  committed from s u t e o p (err _) s' (h, same) = (h, same ∙ p.continues.state ∙ e)
  committed from s u t e o p (ok _) s' (h, a) = (
    h,
    (
      p.operations,
      p.good,
      λ j outside.
          ap (λ x. get x j)
            (a.state_eq
              ∙ ap₂ apply_operations (p.continues.state ∙ e)
                  (ap (λ x. x ++ a.extra) (p.staged ∙ ap (λ x. x ++ p.operations) o))
              ∙ apply_operations-append s.state p.operations a.extra)
          ∙ get-apply_feed a.extra (apply_operations s.state p.operations) j a.feed outside,
    ),
  )

  -- A transaction with a staged body, from its begin to its commit.
  pub transact_from-BatchPost :
      (from : EngineError → E) (emit_cdc : Bool) (body : Exec Transaction E (Unit {0})) (s : Store)
      → Stages P body
      → HasLog s
      → BatchPost s (transact_from from emit_cdc body s).0 (transact_from from emit_cdc body s).1
  unfolding transact_from
  transact_from-BatchPost from emit_cdc body s staging h =
      started (begin_with_cdc emit_cdc s).0 (begin_with_cdc emit_cdc s).1
        (begin-BeginPost emit_cdc s h)
    where
      finished :
          (u : Transaction)
          → u.store.state ≡ s.state
          → u.operations ≡ []
          → (r : Result E (Unit {0})) (t : Transaction) → StagesPost P u r t
          → BatchPost s (finish_from from r t).0 (finish_from from r t).1
      finished u e o (ok _) t p =
          committed from s u t e o p (commit t).0 (commit t).1 (commit-CommitPost t p.opened)
      finished u e o (err _) t (opened, continues) =
          (record { at = opened.at; logged = opened.logged }, continues.state ∙ e)

      started :
          (r : Result EngineError Transaction) (s' : Store)
          → BeginPost s r s'
          → BatchPost s (run_from from body r s').0 (run_from from body r s').1
      started (err _) s' e = rw e (h, refl)
      started (ok t) s' (o, e, empty) = finished t e empty (body t).0 (body t).1 (staging.at t o)
