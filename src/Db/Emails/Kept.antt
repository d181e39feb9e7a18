-- ===== src/Db/Emails/Kept.antt =====
-- The updates of an account leave its email as it is (internal/db/account.go).
use komodo_accounts_api.Db.Keys.{create_pk}
use mathlib.Core.List.{append-nil}
use komodo_accounts_api.Db.Draft.Apply.{update-patched, IsPlain, patched}
use komodo_accounts_api.Dynamo.Laws.{Lawful}
use komodo_accounts_api.Db.Draft.{update_of, Draft, field}
use komodo_accounts_api.Dynamo.{DynamoDb}
use komodo_accounts_api.Dynamo.Items.{
  lookup-insert, assign-append, assign, strings, string, lookup, Item, time, Key, Attr,
}
use komodo_accounts_api.Models.{Account, UpdateCredentialsRequest, UpdateAccountRequest}
use komodo_accounts_api.Db.Account.{
  credentials_draft, profile_key, account_draft, update_account, update_account_credentials,
}
use komodo_accounts_api.Prelude.{◌==◌, refl, [], ◌∷◌, ◌++◌, ◌≡◌, inl, inr, ◌∙◌}
use komodo_accounts_api.Exec.{Result-cases, ok}
use komodo_accounts_api.Prelude.{ℕ, String, List, false, Option, none, some}
use komodo_accounts_api.Db.Draft.Resolve.{Resolves, Resolves-clause_if, Resolves-no_clauses}

-- A list of assignments that assigns nothing to a name.
pub record Skips (n : String) (xs : List (String × Attr)) : Type 0 where
  pub keeps : (it : Item) → lookup n (assign xs it) ≡ lookup n it

nil-Skips : (n : String) → Skips n []
nil-Skips n = record { keeps = λ it. refl }

field-Skips :
    {A : Type 0} (n a : String) (wrap : A → Attr) (o : Option A) (xs : List (String × Attr))
    → (a == n) ≡ false
    → Skips n xs
    → Skips n (xs ++ field a wrap o)
field-Skips n a wrap none xs other h = record { keeps = λ it. rw (append-nil xs) (h.keeps it) }
field-Skips n a wrap (some x) xs other h = record {
  keeps = λ it.
      rw (assign-append xs ((a, wrap x) ∷ []) it)
        (lookup-insert a n (wrap x) (assign xs it) ∙ rw other (h.keeps it));
}

abbrev account_assigned : (now : ℕ) → UpdateAccountRequest → List (String × Attr)
account_assigned now req =
    []
    ++ field "phone" string req.phone
    ++ field "first_name" string req.first_name
    ++ field "last_name" string req.last_name
    ++ field "avatar_url" string req.avatar_url
    ++ field "updated_at" time (some now)

account_assigned-Skips :
    (now : ℕ) (req : UpdateAccountRequest) → Skips "email" (account_assigned now req)
account_assigned-Skips now req = field-Skips _ _ time (some now) _ refl (
    field-Skips _ _ string req.avatar_url _ refl (
      field-Skips _ _ string req.last_name _ refl (
        field-Skips _ _ string req.first_name _ refl
          (field-Skips _ _ string req.phone _ refl (nil-Skips "email")))))

account_draft-Resolves :
    (now : ℕ) (req : UpdateAccountRequest)
    → Resolves [] (account_draft now req) (account_assigned now req)
account_draft-Resolves now req = Resolves-clause_if _ _ _ time (some now) _ _ _ refl (
    Resolves-clause_if _ _ _ string req.avatar_url _ _ _ refl (
      Resolves-clause_if _ _ _ string req.last_name _ _ _ refl (
        Resolves-clause_if _ _ _ string req.first_name _ _ _ refl (
          Resolves-clause_if _ _ _ string req.phone _ _ _ refl (
            Resolves-no_clauses (
              ("#ph", ":ph")
              ∷ ("#fn", ":fn")
              ∷ ("#ln", ":ln")
              ∷ ("#av", ":av")
              ∷ ("#ua", ":ua")
              ∷ []))))))

abbrev credentials_assigned : (now : ℕ) → UpdateCredentialsRequest → List (String × Attr)
credentials_assigned now req =
    []
    ++ field "password_hash" string req.password_hash
    ++ field "auth_methods" strings req.auth_methods
    ++ field "updated_at" time (some now)

credentials_assigned-Skips :
    (now : ℕ) (req : UpdateCredentialsRequest) → Skips "email" (credentials_assigned now req)
credentials_assigned-Skips now req = field-Skips _ _ time (some now) _ refl (
    field-Skips _ _ strings req.auth_methods _ refl
      (field-Skips _ _ string req.password_hash _ refl (nil-Skips "email")))

credentials_draft-Resolves :
    (now : ℕ) (req : UpdateCredentialsRequest)
    → Resolves []
        (credentials_draft now req.password_hash req.auth_methods)
        (credentials_assigned now req)
credentials_draft-Resolves now req = Resolves-clause_if _ _ _ time (some now) _ _ _ refl (
    Resolves-clause_if _ _ _ strings req.auth_methods _ _ _ refl (
      Resolves-clause_if _ _ _ string req.password_hash _ _ _ refl
        (Resolves-no_clauses (("#ph", ":ph") ∷ ("#am", ":am") ∷ ("#ua", ":ua") ∷ []))))

-- What both updates leave: the profile with some assignments, none of them to the email.
abbrev pub Patches : (d : DynamoDb) → String → d.State → d.State → Type 0
Patches d account_id s s' =
    (xs : List (String × Attr)) × Skips "email" xs
    × ((j : Key) → d.table s' j ≡ patched (profile_key account_id) xs (d.table s) j)

module _ (d : DynamoDb) (laws : Lawful d) where
  patched_profile :
      (account_id : String) (draft : Draft) (xs : List (String × Attr)) (s : d.State) (it : Item)
      → Resolves [] draft xs
      → (d.update_item (update_of (profile_key account_id) draft) s).0 ≡ ok it
      → (j : Key)
      → d.table (d.update_item (update_of (profile_key account_id) draft) s).1 j
        ≡ patched (profile_key account_id) xs (d.table s) j
  patched_profile account_id draft xs s it r done =
      let plain : IsPlain (update_of (profile_key account_id) draft) xs = record {
        resolved = r.resolved;
        adds = refl;
        deletes = refl;
        guarded = refl;
      } in
      (update-patched d laws (update_of (profile_key account_id) draft) xs s it plain done).2

  pub update_account-Patches :
      (now : ℕ) (account_id : String) (req : UpdateAccountRequest) (s : d.State) (a : Account)
      → (update_account d now account_id req s).0 ≡ ok a
      → Patches d account_id s (update_account d now account_id req s).1
  unfolding update_account
  update_account-Patches now account_id req s a h =
      let draft = account_draft now req in
      let built = laws.build_key_lem (create_pk account_id) "PROFILE" in
      elim (Result-cases (d.update_item (update_of (profile_key account_id) draft) s).0) [
        | inr (e, failed) ↦ cc (rw (built, failed) at h)
        | inl (it, done) ↦ (
          account_assigned now req,
          account_assigned-Skips now req,
          λ j.
              rw (built, done)
                (patched_profile account_id draft (account_assigned now req) s it
                  (account_draft-Resolves now req) done j),
        )
      ]

  pub update_account_credentials-Patches :
      (now : ℕ) (account_id : String) (req : UpdateCredentialsRequest) (s : d.State)
      → (update_account_credentials d now account_id req s).0 ≡ ok tt
      → Patches d account_id s (update_account_credentials d now account_id req s).1
  unfolding update_account_credentials
  update_account_credentials-Patches now account_id req s h =
      let draft = credentials_draft now req.password_hash req.auth_methods in
      let built = laws.build_key_lem (create_pk account_id) "PROFILE" in
      elim (Result-cases (d.update_item (update_of (profile_key account_id) draft) s).0) [
        | inr (e, failed) ↦ cc (rw (built, failed) at h)
        | inl (it, done) ↦ (
          credentials_assigned now req,
          credentials_assigned-Skips now req,
          λ j.
              rw (built, done)
                (patched_profile account_id draft (credentials_assigned now req) s it
                  (credentials_draft-Resolves now req) done j),
        )
      ]
