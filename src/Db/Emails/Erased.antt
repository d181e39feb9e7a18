-- ===== src/Db/Emails/Erased.antt =====
-- An erasure releases no email of another account (internal/db/account.go).
use komodo_accounts_api.Db.Emails.Apart.{partitions_apart}
use komodo_accounts_api.Db.Erasure.Erased.{delete_account-erases}
use komodo_accounts_api.Db.Emails.{Owned}
use komodo_accounts_api.Db.Erasure.Complete.{
  listed-append, keyed, cleared, child_keys, identity_keys, listed,
}
use komodo_accounts_api.Dynamo.Items.{key_eq_sound, key_eq, key_of, Key, get_string, Item}
use komodo_accounts_api.Db.Keys.{email_reservation_pk}
use komodo_accounts_api.Db.Erasure.{partition_query, delete_account}
use komodo_accounts_api.Dynamo.Laws.{matches, Lawful, Table}
use komodo_accounts_api.Prelude.{
  eq_iff, to_lower, sym, ap, Bool-cases, arith, prefixed, All, ◌==◌, refl, [], ◌∷◌, ◌++◌, ◌≡◌, inl,
  inr, ◌∙◌, ◌&&◌,
}
use komodo_accounts_api.Exec.{Result-cases, ok}
use komodo_accounts_api.Prelude.{String, List, Bool, true, false, none, some, not}
use komodo_accounts_api.Db.Account.{profile_key}
use komodo_accounts_api.Db.Account.Registered.{reservation_key}
use komodo_accounts_api.Dynamo.{DynamoDb, partition}

module _ (t : Table) (account_id : String) where
  -- What the read of the account's partition returns.
  abbrev pub Read : List Item → Type 0
  Read its =
      All
        (λ it.
          (t (key_of it) ≡ some it)
          × (matches (partition (prefixed "ACCOUNT#" account_id)) it ≡ true))
        its

  not_reservation :
      (it : Item) (email : String)
      → (get_string "PK" it == prefixed "ACCOUNT#" account_id) ≡ true
      → key_eq (key_of it) (reservation_key email) ≡ false
  unfolding email_reservation_pk
  not_reservation it email inside = elim (Bool-cases (key_eq (key_of it) (reservation_key email))) [
    | inr other ↦ other
    | inl same ↦
        let pk = ap (λ k. k.pk) (key_eq_sound (key_of it) (reservation_key email) same) in
        absurd (
          partitions_apart account_id (to_lower email)
            (sym ((eq_iff (get_string "PK" it) (prefixed "ACCOUNT#" account_id)).0 inside) ∙ pk))
  ]

  child_keys-no_reservation :
      (its : List Item) (email : String)
      → Read its
      → listed (child_keys its) (reservation_key email) ≡ false
  child_keys-no_reservation [] email read = refl
  child_keys-no_reservation (it ∷ its) email read =
      let rest = child_keys-no_reservation its email read.1 in
      elim (Bool-cases (keyed it && not (get_string "SK" it == "PROFILE"))) [
        | inr skipped ↦ rw skipped rest
        | inl child ↦ rw (child, not_reservation it email read.0.1) rest
      ]

  -- A reservation is released only as that of the account's own profile, which goes with it.
  identity_keys-reservation :
      (its : List Item) (email : String)
      → Read its
      → listed (identity_keys its) (reservation_key email) ≡ true
      → (it : Item) × (t (profile_key account_id) ≡ some it)
        × (reservation_key (get_string "email" it) ≡ reservation_key email)
        × (listed (identity_keys its) (profile_key account_id) ≡ true)
  identity_keys-reservation [] email read h = cc
  identity_keys-reservation (it ∷ its) email read h =
      let mine = reservation_key (get_string "email" it) in
      elim (Bool-cases (keyed it && get_string "SK" it == "PROFILE")) [
        | inr skipped ↦ rw skipped (identity_keys-reservation its email read.1 (rw skipped at h))
        | inl identity ↦ elim (Bool-cases (key_eq mine (reservation_key email))) [
          | inl same ↦
              let at : key_of it ≡ profile_key account_id =
                is_profile it read.0.1 (and-snd (keyed it) _ identity) in
              (
                it,
                ap t (sym at) ∙ read.0.0,
                key_eq_sound mine (reservation_key email) same,
                rw (identity, read.0.1, and-snd (keyed it) _ identity) refl,
              )
          | inr other ↦
              let (jt, found, reserved, gone) =
                identity_keys-reservation its email read.1
                  (rw (identity, not_reservation it email read.0.1, other) at h) in
              (jt, found, reserved, rw identity (ground (arith, gone)))
        ]
      ]
    where
      and-snd : (b c : Bool) → (b && c) ≡ true → c ≡ true
      and-snd b c h = ground arith

      is_profile :
          (it : Item)
          → (get_string "PK" it == prefixed "ACCOUNT#" account_id) ≡ true
          → (get_string "SK" it == "PROFILE") ≡ true
          → key_of it ≡ profile_key account_id
      is_profile it pk sk = key_eq_sound (key_of it) (profile_key account_id) (rw (pk, sk) refl)

  cleared-Owned :
      (its : List Item) (t' : Table)
      → Read its
      → ((j : Key) → t' j ≡ cleared (child_keys its ++ identity_keys its) t j)
      → Owned t
      → Owned t'
  cleared-Owned its t' read after owned a p there =
      let keys = child_keys its ++ identity_keys its in
      elim (Bool-cases (listed keys (profile_key a))) [
        | inl gone ↦
            let absent : t' (profile_key a) ≡ none = after (profile_key a) ∙ rw gone refl in
            cc (absent, there)
        | inr kept ↦
            let before : t (profile_key a) ≡ some p =
              sym (rw kept at (after (profile_key a))) ∙ there in
            let (r, reserved, owner) = owned a p before in
            let at = reservation_key (get_string "email" p) in
            elim (Bool-cases (listed keys at)) [
              | inr free ↦ (r, after at ∙ rw free reserved, owner)
              | inl released ↦
                  let children = child_keys-no_reservation its (get_string "email" p) read in
                  let (it, found, same, mine) =
                    identity_keys-reservation its (get_string "email" p) read (
                      rw (listed-append (child_keys its) (identity_keys its) at, children) at
                        released) in
                  let (r', reserved', owner') = owned account_id it found in
                  let one : r ≡ r' = cc (ap t same, reserved, reserved') in
                  let both : a ≡ account_id = cc (owner, owner', one) in
                  let listed_too : listed keys (profile_key a) ≡ true =
                    rw
                      (
                        both,
                        listed-append (child_keys its) (identity_keys its) (profile_key account_id),
                        mine,
                      )
                      (ground arith) in
                  cc
            ]
      ]

pub delete_account-Owned :
    (d : DynamoDb) (laws : Lawful d) (account_id : String) (s : d.State)
    → (delete_account d account_id s).0 ≡ ok tt
    → Owned (d.table s)
    → Owned (d.table (delete_account d account_id s).1)
unfolding delete_account
delete_account-Owned d laws account_id s h owned =
    elim (Result-cases (d.query_all (partition_query account_id) s).0) [
      | inr (e, failed) ↦ cc (rw failed at h)
      | inl (its, read) ↦
          cleared-Owned (d.table s) account_id its (d.table (delete_account d account_id s).1)
            (laws.query_all_ok (partition_query account_id) s its read)
            (delete_account-erases d laws account_id s its read h).0 owned
    ]
