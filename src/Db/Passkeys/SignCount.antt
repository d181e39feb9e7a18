-- ===== src/Db/Passkeys/SignCount.antt =====
-- What UpdatePasskey of internal/db/passkeys.go makes of the signature counter.

use komodo_accounts_api.Errors.{
  is_conditional, conditional_check_failed, repo_sign_count_regression, is, from_client, Err,
}
use komodo_accounts_api.Db.Draft.{field, clause_if}
use komodo_accounts_api.Dynamo.Laws.{Lawful}
use komodo_accounts_api.Db.Draft.Apply.{update-patched, patched, IsPlain}
use komodo_accounts_api.Prelude.Int.{◌≤ℤ◌, leb_ℤ, ℤ}
use komodo_accounts_api.Db.Keys.{passkey_sk, create_pk}
use komodo_accounts_api.Dynamo.Items.{
  key_eq_refl, booleans, string_set, resolve, named, lookup, boolean, time, UpdateRequest,
  compare_numbers, number, holds, Item, Attr, Key,
}
use komodo_accounts_api.Dynamo.{DynamoDb}
use komodo_accounts_api.Models.{PasskeyCredential}
use komodo_accounts_api.Prelude.{
  Option-cases, ◌∙◌, sym, false, inr, ap, ◌≢◌, inl, none, [], true, Bool-cases, ◌≡◌, ◌∷◌, some, ℕ,
  List, String, Option, refl,
}
use komodo_accounts_api.Exec.{Result-cases, Result, ok}
use komodo_accounts_api.Db.Passkeys.{
  strings, string, conditional_check_failed, repo_sign_count_regression, is, true, [], boolean, err,
  time, passkey_answer, some, UpdateRequest, number, update_passkey, Result, clause_if, List, ℤ, ℕ,
  create_pk, Item, Option, Key, DynamoDb, String, PasskeyCredential, passkey_update, to_model,
  unmarshal,
}

-- What an update of a passkey assigns.
abbrev pub passkey_assigned : PasskeyCredential → List (String × Attr)
passkey_assigned update =
    ("sign_count", number update.sign_count)
    ∷ ("backup_state", boolean update.backup_state)
    ∷ field "last_used_at" time update.last_used_at

abbrev pub passkey_key : (account_id credential_id : String) → Key
passkey_key account_id credential_id = record {
  pk = create_pk account_id;
  sk = passkey_sk credential_id;
}

last_used-resolved :
    (sc bs : Attr) (o : Option ℕ)
    → (let draft = clause_if "#lua" ":lua" "last_used_at" time o (record {
      set = ("#sc", ":new") ∷ ("#bs", ":bs") ∷ [];
      values = (":new", sc) ∷ (":bs", bs) ∷ [];
      names = ("#sc", "sign_count") ∷ ("#bs", "backup_state") ∷ [];
    }) in
        (resolve draft.names draft.values draft.set
          ≡ some (("sign_count", sc) ∷ ("backup_state", bs) ∷ field "last_used_at" time o))
        × (lookup "#sc" draft.names ≡ some "sign_count")
        × (lookup ":new" draft.values ≡ some sc))
last_used-resolved sc bs none = (refl, refl, refl)
last_used-resolved sc bs (some t) = (refl, refl, refl)

compare_count :
    (o : Option Attr) (v : ℤ)
    → compare_numbers leb_ℤ o (some (number v)) ≡ true
    → (n : ℤ) × (o ≡ some (number n)) × (n ≤ℤ v)
compare_count (some (number n)) v h = (n, refl, h)
compare_count none v h = cc
compare_count (some (string _)) v h = cc
compare_count (some (boolean _)) v h = cc
compare_count (some (time _)) v h = cc
compare_count (some (strings _)) v h = cc
compare_count (some (string_set _)) v h = cc
compare_count (some (booleans _)) v h = cc

module _ (key : Key) (update : PasskeyCredential) where
  passkey_update-IsPlain : IsPlain (passkey_update key update) (passkey_assigned update)
  passkey_update-IsPlain =
      let (r, _, _) =
        last_used-resolved (number update.sign_count) (boolean update.backup_state)
          update.last_used_at in
      record { resolved = r; adds = refl; deletes = refl; guarded = refl }

  holds-count :
      (it : Item)
      → holds (passkey_update key update) (some it)
        ≡ compare_numbers leb_ℤ (lookup "sign_count" it) (some (number update.sign_count))
  holds-count it =
      let (_, n, v) =
        last_used-resolved (number update.sign_count) (boolean update.backup_state)
          update.last_used_at in
      rw (named, n, v) refl

module _ (d : DynamoDb) (laws : Lawful d) (account_id credential_id : String)
    (update : PasskeyCredential) (s : d.State) where
  abbrev sent : UpdateRequest
  sent = passkey_update (passkey_key account_id credential_id) update

  abbrev after_update : d.State
  after_update = (d.update_item sent s).1

  update_passkey-built :
      update_passkey d account_id credential_id update s
      ≡ passkey_answer d
          (passkey_key account_id credential_id)
          (d.update_item sent s).0
          after_update
  unfolding update_passkey
  update_passkey-built = rw laws.build_key_lem refl

  abbrev stopped : Err → Result PasskeyCredential
  stopped e = err e

  answer-ok :
      (r : Result Item) (cred : PasskeyCredential)
      → (passkey_answer d (passkey_key account_id credential_id) r after_update).0 ≡ ok cred
      → (it : Item) × (r ≡ ok it) × (cred ≡ to_model (unmarshal it))
  answer-ok (ok it) cred h = (it, refl, cc)
  answer-ok (err e) cred h = elim (Bool-cases (is e conditional_check_failed)) [
    | inl refused ↦
        elim (Result-cases (d.get_item (passkey_key account_id credential_id) after_update).0) [
          | inl (it, found) ↦ cc (rw (refused, found) at h)
          | inr (x, failed) ↦ cc (rw (refused, failed) at h)
        ]
    | inr unknown ↦ cc (rw unknown at h)
  ]

  answer-regression :
      (r : Result Item)
      → ((e : Err) → r ≡ err e → from_client e ≡ true)
      → (passkey_answer d (passkey_key account_id credential_id) r after_update).0
        ≡ err repo_sign_count_regression
      → (r ≡ err conditional_check_failed)
        × (d.table after_update (passkey_key account_id credential_id) ≢ none)
        × ((j : Key)
            → d.table (passkey_answer d (passkey_key account_id credential_id) r after_update).1 j
              ≡ d.table after_update j)
  answer-regression (ok it) known h = cc
  answer-regression (err e) known h = elim (Bool-cases (is e conditional_check_failed)) [
    | inl refused ↦
        elim (Result-cases (d.get_item (passkey_key account_id credential_id) after_update).0) [
          | inl (it, found) ↦ (
            ap err (is_conditional e refused),
            λ absent. cc (laws.get_ok _ after_update it found, absent),
            λ j.
                rw (refused, found)
                  (laws.get_keeps (passkey_key account_id credential_id) after_update j),
          )
          | inr (x, failed) ↦ cc (rw (refused, failed) at h)
        ]
    | inr unknown ↦
        let e_is : stopped e ≡ stopped repo_sign_count_regression = rw unknown at h in
        let same : e ≡ repo_sign_count_regression = cc in
        let mine = known e refl in cc (rw same at mine)
  ]

  -- An update of a passkey that succeeds found a signature counter at most the new one; it assigns
  -- the new counter, the backup state and, if it is given, the time of use to the passkey's item,
  -- changes nothing else in the table, and returns what is then stored.
  pub update_passkey-advances :
      (cred : PasskeyCredential)
      → (update_passkey d account_id credential_id update s).0 ≡ ok cred
      → ((old : Item) × (n : ℤ) × (d.table s (passkey_key account_id credential_id) ≡ some old)
          × (lookup "sign_count" old ≡ some (number n))
          × (n ≤ℤ update.sign_count))
        × ((j : Key)
            → d.table (update_passkey d account_id credential_id update s).1 j
              ≡ patched
                  (passkey_key account_id credential_id)
                  (passkey_assigned update)
                  (d.table s)
                  j)
        × ((it : Item) × (d.table
                (update_passkey d account_id credential_id update s).1
                (passkey_key account_id credential_id)
              ≡ some it)
            × (cred ≡ to_model (unmarshal it)))
  update_passkey-advances cred e =
      let key = passkey_key account_id credential_id in
      let (it, done, cred_is) =
        answer-ok (d.update_item sent s).0 cred (ap (λ p. p.0) (sym update_passkey-built) ∙ e) in
      let (there, made, after) =
        update-patched d laws sent (passkey_assigned update) s it
          (passkey_update-IsPlain key update) done in
      let (permitted, _, wrote) = laws.update_ok sent s it done in
      let state : (update_passkey d account_id credential_id update s).1 ≡ after_update =
        ap (λ p. p.1) update_passkey-built
        ∙ ap (λ r. (passkey_answer d key r after_update).1) done in
      (
        elim (Option-cases (d.table s key)) [
          | inl missing ↦ absurd (there missing)
          | inr (old, found) ↦
              let (n, count, below) =
                compare_count (lookup "sign_count" old) update.sign_count
                  (sym (holds-count key update old) ∙ ap (holds sent) (sym found) ∙ permitted) in
              (old, n, found, count, below)
        ],
        λ j. ap (λ t. d.table t j) state ∙ after j,
        (it, ap (λ t. d.table t key) state ∙ wrote key ∙ rw (key_eq_refl key) refl, cred_is),
      )

  -- A regression of the counter is reported only if the passkey exists and its counter is not a
  -- number that is at most the new one; the table has not changed.
  pub update_passkey-regression :
      (update_passkey d account_id credential_id update s).0 ≡ err repo_sign_count_regression
      → ((old : Item) × (d.table s (passkey_key account_id credential_id) ≡ some old)
          × ((n : ℤ)
              → lookup "sign_count" old ≡ some (number n)
              → leb_ℤ n update.sign_count ≡ false))
        × ((j : Key)
            → d.table (update_passkey d account_id credential_id update s).1 j ≡ d.table s j)
  update_passkey-regression e =
      let key = passkey_key account_id credential_id in
      let (refused, there, kept) =
        answer-regression (d.update_item sent s).0 (laws.update_err sent s)
          (ap (λ p. p.0) (sym update_passkey-built) ∙ e) in
      let (denied, same) = laws.update_refused sent s refused in
      (
        elim (Option-cases (d.table s key)) [
          | inl missing ↦ absurd (there (same key ∙ missing))
          | inr (old, found) ↦ (
            old,
            found,
            λ n count.
                ap (λ o. compare_numbers leb_ℤ o (some (number update.sign_count))) (sym count)
                ∙ sym (holds-count key update old)
                ∙ ap (holds sent) (sym found)
                ∙ denied,
          )
        ],
        λ j. ap (λ p. d.table p.1 j) update_passkey-built ∙ kept j ∙ same j,
      )
