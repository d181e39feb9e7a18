-- ===== src/Db/Erasure/Complete.antt =====
-- Which keys the erasure of internal/db/account.go deletes.
use komodo_accounts_api.Db.Keys.{email_reservation_pk}
use mathlib.Core.List.{append_assoc, append-nil}
use komodo_accounts_api.Dynamo.Laws.{with_item, all_written, Table}
use komodo_accounts_api.Dynamo.{delete, TransactItem}
use komodo_accounts_api.Dynamo.Items.{key_of, get_string, key_eq, Key, Item}
use komodo_accounts_api.Prelude.{
  true, inl, inr, [], ◌∙◌, zero, Bool-cases, none, ap, not, ◌||◌, arith, ◌&&◌, ◌≡◌, if◌then◌else◌,
  drop, take, map, false, length, ◌++◌, Bool, List, ℕ, ◌==◌, refl,
}
use komodo_accounts_api.Exec.{ok}
use komodo_accounts_api.Db.Erasure.{
  true, release, email_reservation_pk, key_of, not, none, suc, get_string, delete, has, length, ◌∷◌,
  take, ErasurePlan, drop, false, TransactItem, Bool, ℕ, List, plan_loop, Item,
}

abbrev pub deletes : List Key → List TransactItem
deletes ks = map delete ks

abbrev pub listed : List Key → Key → Bool
listed [] j = false
listed (k ∷ ks) j = key_eq k j || listed ks j

-- No key is listed twice, and every key is valid.
abbrev pub sendable : (valid : Key → Bool) → List Key → Bool
sendable valid [] = true
sendable valid (k ∷ ks) = valid k && not (listed ks k) && sendable valid ks

-- The table without the items at some keys.
abbrev pub cleared : List Key → Table → Table
cleared ks t j = if listed ks j then none else t j

-- An item is part of the plan if it has both key attributes.
abbrev pub keyed : Item → Bool
keyed it = has "PK" it && has "SK" it

abbrev pub child_keys : List Item → List Key
child_keys [] = []
child_keys (it ∷ its) =
    let rest = child_keys its in
    if keyed it && not (get_string "SK" it == "PROFILE") then key_of it ∷ rest else rest

abbrev pub identity_keys : List Item → List Key
identity_keys [] = []
identity_keys (it ∷ its) =
    let rest = identity_keys its in
    if keyed it && get_string "SK" it == "PROFILE"
    then key_of it
      ∷ record { pk = email_reservation_pk (get_string "email" it); sk = "EMAIL" }
      ∷ rest
    else rest

pub plan_loop-keys :
    (its : List Item) (children identity : List TransactItem) (plan : ErasurePlan)
    → plan_loop its children identity ≡ ok plan
    → (plan.children ≡ children ++ deletes (child_keys its))
      × (plan.identity ≡ identity ++ deletes (identity_keys its))
unfolding plan_loop
plan_loop-keys [] children identity plan h =
    (rw (append-nil children) (cc), rw (append-nil identity) (cc))
plan_loop-keys (it ∷ its) children identity plan h = elim (Bool-cases (keyed it)) [
  | inr skipped ↦ rw skipped (plan_loop-keys its children identity plan (rw skipped at h))
  | inl kept ↦ elim (Bool-cases (get_string "SK" it == "PROFILE")) [
    | inr child ↦
        let (c, i) =
          plan_loop-keys its (children ++ delete (key_of it) ∷ []) identity plan
            (rw (kept, child) at h) in
        rw (kept, child)
          (c ∙ append_assoc children (delete (key_of it) ∷ []) (deletes (child_keys its)), i)
    | inl profile ↦ elim (Bool-cases (get_string "email" it == "")) [
      | inl unreadable ↦ cc (rw (kept, profile, unreadable) at h)
      | inr readable ↦
          let pair = delete (key_of it) ∷ release (get_string "email" it) ∷ [] in
          let (c, i) =
            plan_loop-keys its children (identity ++ pair) plan
              (rw (kept, profile, readable) at h) in
          rw (kept, profile) (c, i ∙ append_assoc identity pair (deletes (identity_keys its)))
    ]
  ]
]

pub all_written-deletes :
    (ks : List Key) (t : Table) (j : Key) → all_written (deletes ks) t j ≡ cleared ks t j
all_written-deletes [] t j = refl
all_written-deletes (k ∷ ks) t j =
    all_written-deletes ks (with_item k none t) j ∙ (elim (Bool-cases (key_eq k j)) [
      | inl same ↦
          rw same (elim (Bool-cases (listed ks j)) [
            | inl again ↦ rw again refl
            | inr once ↦ rw once refl
          ])
      | inr other_key ↦ rw other_key refl
    ])

pub listed-append :
    (ks js : List Key) (j : Key) → listed (ks ++ js) j ≡ (listed ks j || listed js j)
listed-append [] js j = refl
listed-append (k ∷ ks) js j = ground (arith, listed-append ks js j)

pub sendable-append :
    (valid : Key → Bool) (ks js : List Key)
    → sendable valid (ks ++ js) ≡ true
    → (sendable valid ks ≡ true) × (sendable valid js ≡ true)
sendable-append valid [] js h = (refl, h)
sendable-append valid (k ∷ ks) js h =
    let split = listed-append ks js k in
    let later : sendable valid (ks ++ js) ≡ true = ground (arith, h) in
    let (first, second) = sendable-append valid ks js later in
    (ground (arith, h, split, first), second)

pub cleared-cleared :
    (ks js : List Key) (t : Table) (j : Key) → cleared js (cleared ks t) j ≡ cleared (ks ++ js) t j
cleared-cleared ks js t j = rw (listed-append ks js j) (ground arith)

pub take-deletes : (n : ℕ) (ks : List Key) → take n (deletes ks) ≡ deletes (take n ks)
take-deletes zero ks = refl
take-deletes (suc n) [] = refl
take-deletes (suc n) (k ∷ ks) = ap (λ ws. delete k ∷ ws) (take-deletes n ks)

pub drop-deletes : (n : ℕ) (ks : List Key) → drop n (deletes ks) ≡ deletes (drop n ks)
drop-deletes zero ks = refl
drop-deletes (suc n) [] = refl
drop-deletes (suc n) (k ∷ ks) = drop-deletes n ks

pub length-deletes : (ks : List Key) → length (deletes ks) ≡ length ks
length-deletes [] = refl
length-deletes (k ∷ ks) = ap suc (length-deletes ks)
