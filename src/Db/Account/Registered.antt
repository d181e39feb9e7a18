-- ===== src/Db/Account/Registered.antt =====
-- What CreateAccount writes, and the email that it reserves.
use komodo_accounts_api.Db.Settings.{settings_key}
use komodo_accounts_api.Errors.{
  other, repo_not_found, conditional_check_failed, condition_failure, from_client,
  repo_email_already_exists, Err,
}
use komodo_accounts_api.Models.{Account, CreateAccountRequest}
use komodo_accounts_api.Db.Keys.{create_pk, email_reservation_pk}
use komodo_accounts_api.Dynamo.Laws.{with_item, Lawful}
use komodo_accounts_api.Dynamo.Items.{key_eq_refl, item_not_exists, allows, Key, Item}
use komodo_accounts_api.Dynamo.{TransactItem, DynamoDb}
use komodo_accounts_api.Prelude.{
  false, if◌then◌else◌, arith, eqb, Bool-cases, ap, ◌∙◌, ◌≢◌, inr, inl, to_lower, none, true, ◌≡◌,
  List, ℕ, Option, String, refl,
}
use komodo_accounts_api.Exec.{Result, err, Result-cases, ok}
use komodo_accounts_api.Db.Account.{
  false, eqb, condition_failure, create_error, repo_email_already_exists, Result, Err, err,
  settings_default, email_reservation, some, none, to_lower, registration, profile_key,
  profile_record, true, TransactItem, Account, marshal, List, item_not_exists, CreateAccountRequest,
  ℕ, create_pk, email_reservation_pk, Key, Item, Option, String, DynamoDb, create_account,
}

abbrev pub reservation_key : String → Key
reservation_key email = record { pk = email_reservation_pk email; sk = "EMAIL" }

abbrev stopped : Err → Result Account
stopped e = err e

pub allows-absent : (o : Option Item) → allows item_not_exists o ≡ true → o ≡ none
allows-absent none h = refl
allows-absent (some it) h = cc

module _ (d : DynamoDb) (laws : Lawful d) (now : ℕ) (account_id : String)
    (req : CreateAccountRequest) (s : d.State) where
  abbrev sent : List TransactItem
  sent = registration now account_id req

  abbrev profile : Item
  profile = marshal (profile_record now account_id (to_lower req.email) req)

  -- A registration that succeeds found neither a profile nor settings of the account, and the email
  -- not reserved; it leaves the profile, the default settings and the reservation of the email in
  -- lower case, and nothing else in the table has changed.
  pub create_account-registers :
      (a : Account)
      → (create_account d now account_id req s).0 ≡ ok a
      → ((d.table s (profile_key account_id) ≡ none)
          × (d.table s (settings_key account_id) ≡ none)
          × (d.table s (reservation_key (to_lower req.email)) ≡ none))
        × ((j : Key)
            → d.table (create_account d now account_id req s).1 j
              ≡ with_item
                  (reservation_key (to_lower req.email))
                  (some (email_reservation account_id (to_lower req.email)))
                  (with_item
                    (settings_key account_id)
                    (some (settings_default (create_pk account_id) now))
                    (with_item (profile_key account_id) (some profile) (d.table s)))
                  j)
  unfolding create_account
  create_account-registers a e = elim (Result-cases (d.transact_write sent s).0) [
    | inl (done, sent_ok) ↦
        let (permitted, after) = laws.transact_ok sent s sent_ok in
        (
          (
            allows-absent _ permitted.0,
            allows-absent _ permitted.1.0,
            allows-absent _ permitted.1.1.0,
          ),
          λ j. rw sent_ok (after j),
        )
    | inr (x, failed) ↦ cc (rw failed at e)
  ]

  -- A conflict on the email is reported only if the email is reserved in the table, and then the
  -- table has not changed.
  pub create_account-email_conflict :
      (create_account d now account_id req s).0 ≡ err repo_email_already_exists
      → (d.table s (reservation_key (to_lower req.email)) ≢ none)
        × ((j : Key) → d.table (create_account d now account_id req s).1 j ≡ d.table s j)
  unfolding create_account
  create_account-email_conflict e = elim (Result-cases (d.transact_write sent s).0) [
    | inl (done, sent_ok) ↦ cc (rw sent_ok at e)
    | inr (x, failed) ↦
        let (i, is_failure, at_email) =
          third x (laws.transact_err sent s x failed) (rw failed at e) in
        let (refused, kept) =
          laws.transact_refused sent s 2
            (failed ∙ ap err (is_failure ∙ ap condition_failure at_email)) in
        (refuses-present _ refused, λ j. rw failed (kept j))
  ]
    where
      third :
          (x : Err)
          → from_client x ≡ true
          → stopped (create_error x) ≡ stopped repo_email_already_exists
          → (i : ℕ) × (x ≡ condition_failure i) × (i ≡ 2)
      third (condition_failure i) known h = elim (Bool-cases (eqb i 2)) [
        | inl same ↦ (i, refl, ground arith)
        | inr other_part ↦ cc (rw other_part at h)
      ]
      third conditional_check_failed known h = cc
      third repo_not_found known h = cc
      third other known h = cc
      third _ known h = cc

      refuses-present :
          (o : Option Item) → (if allows item_not_exists o then false else true) ≡ true → o ≢ none
      refuses-present none h = cc
      refuses-present (some it) h = λ absent. cc

-- One email, one account: after a registration that succeeds, no second registration with the same
-- email, compared without case, succeeds.
pub create_account-email_unique :
    (d : DynamoDb) (laws : Lawful d) (now : ℕ) (account_id : String) (req : CreateAccountRequest)
    (now' : ℕ) (account_id' : String) (req' : CreateAccountRequest) (s : d.State) (a b : Account)
    → (create_account d now account_id req s).0 ≡ ok a
    → to_lower req.email ≡ to_lower req'.email
    → (create_account d now' account_id' req' (create_account d now account_id req s).1).0 ≢ ok b
create_account-email_unique d laws now account_id req now' account_id' req' s a b first same
      second =
    let s' = (create_account d now account_id req s).1 in
    let key = reservation_key (to_lower req.email) in
    let (_, after) = create_account-registers d laws now account_id req s a first in
    let ((_, _, free), _) = create_account-registers d laws now' account_id' req' s' b second in
    let there : d.table s' key ≡ some (email_reservation account_id (to_lower req.email)) =
      after key ∙ rw (key_eq_refl key) refl in
    let gone : d.table s' key ≡ none = ap (λ m. d.table s' (reservation_key m)) same ∙ free in cc
