-- ===== src/Db/Erasure/Erased.antt =====
-- What is left of an account after DeleteAccount.
use komodo_accounts_api.Db.Erasure.Chunks.{delete_chunks-clears}
use komodo_accounts_api.Dynamo.Items.{Key, Item}
use komodo_accounts_api.Dynamo.Laws.{all_written, Lawful}
use komodo_accounts_api.Dynamo.{TransactItem, DynamoDb}
use komodo_accounts_api.Prelude.{
  sym, ℕ, length, ap, ◌∙◌, fun_ext, ◌++◌, [], ◌≢◌, ◌≡◌, String, List, refl,
}
use komodo_accounts_api.Exec.{◌>>◌, lift, bind-ok, Result, ok}
use komodo_accounts_api.Db.Erasure.Complete.{
  cleared-cleared, all_written-deletes, plan_loop-keys, identity_keys, child_keys, deletes, cleared,
}
use komodo_accounts_api.Db.Erasure.{
  ℕ, length, with_profile, lift, TransactItem, ◌∷◌, plan_loop, err, [], erase_items,
  partition_query, checked_plan, delete_chunks, Item, String, List, ErasurePlan, build_erasure_plan,
  DynamoDb, Result, delete_account,
}

checked_plan-ok :
    (r : Result ErasurePlan) (plan : ErasurePlan)
    → checked_plan r ≡ ok plan
    → (r ≡ ok plan) × (plan.identity ≢ [])
checked_plan-ok (err e) plan h = cc
checked_plan-ok (ok p) plan h = go p.identity refl h
  where
    go :
        (ws : List TransactItem)
        → p.identity ≡ ws
        → with_profile p ws ≡ ok plan
        → (ok p ≡ ok plan) × (plan.identity ≢ [])
    go [] e k = cc
    go (w ∷ ws) e k =
        let same : p ≡ plan = cc in (k, λ empty_plan. cc (ap (λ q. q.identity) same, e, empty_plan))

pub build_erasure_plan-keys :
    (its : List Item) (plan : ErasurePlan)
    → build_erasure_plan its ≡ ok plan
    → (plan.children ≡ deletes (child_keys its))
      × (plan.identity ≡ deletes (identity_keys its))
      × (identity_keys its ≢ [])
unfolding build_erasure_plan
build_erasure_plan-keys its plan h =
    let (built, some_identity) = checked_plan-ok (plan_loop its [] []) plan h in
    let (c, i) = plan_loop-keys its [] [] plan built in
    (c, i, λ none_listed. some_identity (i ∙ ap deletes none_listed))

module _ (d : DynamoDb) (laws : Lawful d) where
  erase_items-clears :
      (its : List Item) (s : d.State)
      → (erase_items d its s).0 ≡ ok tt
      → ((j : Key)
          → d.table (erase_items d its s).1 j
            ≡ cleared (child_keys its ++ identity_keys its) (d.table s) j)
        × (identity_keys its ≢ [])
  unfolding delete_chunks build_erasure_plan
  erase_items-clears [] s h = cc
  erase_items-clears (it ∷ its) s h =
      let (plan, built, later, state) =
        bind-ok (lift (build_erasure_plan (it ∷ its)))
          (λ plan.
            delete_chunks d (length plan.children) 0 plan.children
            >> d.transact_write plan.identity)
          s tt h in
      let (children, identity, found) = build_erasure_plan-keys (it ∷ its) plan built in
      let (u, chunks, last, state') =
        bind-ok (delete_chunks d (length plan.children) 0 plan.children)
          (λ _. d.transact_write plan.identity) s tt later in
      let s' = (delete_chunks d (length plan.children) 0 plan.children s).1 in
      let ran : (n : ℕ) × ((delete_chunks d n 0 (deletes (child_keys (it ∷ its))) s).0 ≡ ok tt)
          × (s' ≡ (delete_chunks d n 0 (deletes (child_keys (it ∷ its))) s).1) =
        (
          length plan.children,
          ap (λ ws. (delete_chunks d (length plan.children) 0 ws s).0) (sym children) ∙ chunks,
          ap (λ ws. (delete_chunks d (length plan.children) 0 ws s).1) children,
        ) in
      let (n, ran_ok, s'_is) = ran in
      let first : d.table s' ≡ cleared (child_keys (it ∷ its)) (d.table s) = fun_ext (λ j.
        ap (λ p. d.table p j) s'_is
        ∙ delete_chunks-clears d laws n 0 (child_keys (it ∷ its)) s ran_ok j) in
      let (_, after) = laws.transact_ok plan.identity s' last in
      (
        λ j.
            ap (λ p. d.table p.1 j) (state ∙ state')
            ∙ after j
            ∙ ap (λ ws. all_written ws (d.table s') j) identity
            ∙ all_written-deletes (identity_keys (it ∷ its)) (d.table s') j
            ∙ ap (λ t. cleared (identity_keys (it ∷ its)) t j) first
            ∙ cleared-cleared (child_keys (it ∷ its)) (identity_keys (it ∷ its)) (d.table s) j,
        found,
      )

  -- An erasure that succeeds removes from the table exactly the items that the read of the
  -- account's partition returned, with the key attributes, and the reservations of the emails of
  -- the profiles among them, of which there is one at least.
  pub delete_account-erases :
      (account_id : String) (s : d.State) (its : List Item)
      → (d.query_all (partition_query account_id) s).0 ≡ ok its
      → (delete_account d account_id s).0 ≡ ok tt
      → ((j : Key)
          → d.table (delete_account d account_id s).1 j
            ≡ cleared (child_keys its ++ identity_keys its) (d.table s) j)
        × (identity_keys its ≢ [])
  unfolding delete_account
  delete_account-erases account_id s its read h =
      let s' = (d.query_all (partition_query account_id) s).1 in
      let same : d.table s' ≡ d.table s =
        fun_ext (laws.query_all_keeps (partition_query account_id) s) in
      let (after, found) = erase_items-clears its s' (rw read at h) in
      (
        λ j. rw read (after j ∙ ap (λ t. cleared (child_keys its ++ identity_keys its) t j) same),
        found,
      )
