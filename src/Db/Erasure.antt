-- ===== src/Db/Erasure.antt =====
-- DeleteAccount and buildErasurePlan of internal/db/account.go
pub mod Complete
pub mod Erased
pub mod Chunks
use komodo_accounts_api.Db.Keys.{email_reservation_pk}
use komodo_accounts_api.Errors.{unreadable_profile_email, other, repo_not_found}
use komodo_accounts_api.Dynamo.Items.{get_string, key_of, lookup, Item}
use komodo_accounts_api.Dynamo.{partition, delete, TransactItem, QueryInput, DynamoDb}
use komodo_accounts_api.Prelude.{
  zero, drop, ◌-◌, take, ◌+◌, ◌&&◌, min, suc, not, some, true, false, length, ◌++◌, none, ltb,
  prefixed, ◌∷◌, Bool, [], if◌then◌else◌, String, List, ℕ, ◌==◌,
}
use komodo_accounts_api.Exec.{pure, ◌>>◌, lift, ok, raise, Exec, err, Result, ◌>>=◌}

pub record ErasurePlan : Type 0 where
  pub children : List TransactItem
  pub identity : List TransactItem

abbrev pub erasure_chunk_size : ℕ
erasure_chunk_size = 100

abbrev pub has : String → Item → Bool
has name it = elim (lookup name it) [ none ↦ false | some v ↦ true ]

abbrev release : String → TransactItem
release email = delete (record { pk = email_reservation_pk email; sk = "EMAIL" })

-- The loop, with the two parts of the plan as its variables. The key attributes are texts.
unfoldable pub plan_loop : List Item → (children identity : List TransactItem) → Result ErasurePlan
plan_loop [] children identity = ok (record { children = children; identity = identity })
plan_loop (it ∷ its) children identity =
    let with_child = plan_loop its (children ++ delete (key_of it) ∷ []) identity in
    let with_identity =
      plan_loop its children
        (identity ++ delete (key_of it) ∷ release (get_string "email" it) ∷ []) in
    let skipped = plan_loop its children identity in
    if not (has "PK" it && has "SK" it)
    then skipped
    else if not (get_string "SK" it == "PROFILE")
    then with_child
    else if get_string "email" it == ""
    then err unreadable_profile_email
    else with_identity

abbrev pub with_profile : ErasurePlan → List TransactItem → Result ErasurePlan
with_profile plan [] = err repo_not_found
with_profile plan (w ∷ ws) = ok plan

abbrev pub checked_plan : Result ErasurePlan → Result ErasurePlan
checked_plan (err e) = err e
checked_plan (ok plan) = with_profile plan plan.identity

unfoldable pub build_erasure_plan : List Item → Result ErasurePlan
unfolding plan_loop
build_erasure_plan its = checked_plan (plan_loop its [] [])

abbrev pub partition_query : String → QueryInput
partition_query account_id = record {
  key_condition = partition (prefixed "ACCOUNT#" account_id);
  limit = none;
  scan_forward = true;
}

module _ (d : DynamoDb) where
  -- The loop over the chunks from `start`; the fuel is the number of children, which is enough.
  unfoldable pub delete_chunks : (fuel start : ℕ) → List TransactItem → Exec d.State (Unit {0})
  delete_chunks zero start children = if ltb start (length children) then raise other else pure tt
  delete_chunks (suc fuel) start children =
      let end = min (start + erasure_chunk_size) (length children) in
      let rest = (do
        d.transact_write (take (end - start) (drop start children))
        delete_chunks fuel (start + erasure_chunk_size) children) in
      if ltb start (length children) then rest else pure tt

  abbrev pub erase_items : List Item → Exec d.State (Unit {0})
  erase_items [] = raise repo_not_found
  erase_items (it ∷ its) = do
    plan ← lift (build_erasure_plan (it ∷ its))
    delete_chunks (length plan.children) 0 plan.children
    d.transact_write plan.identity

  unfoldable pub delete_account : (account_id : String) → Exec d.State (Unit {0})
  unfolding build_erasure_plan delete_chunks
  delete_account account_id = do its ← d.query_all (partition_query account_id); erase_items its
