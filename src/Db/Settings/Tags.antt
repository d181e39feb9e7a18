-- ===== src/Db/Settings/Tags.antt =====
-- What a change of the tags of an account does.
use komodo_accounts_api.Db.Keys.{deref_slice}
use komodo_accounts_api.Models.{UpdateSettingsTagsRequest}
use komodo_accounts_api.Db.Settings.Locking.{answer-ok, answered}
use komodo_accounts_api.Exec.{Result, ok}
use komodo_accounts_api.Dynamo.Laws.{Lawful}
use komodo_accounts_api.Dynamo.{DynamoDb}
use komodo_accounts_api.Prelude.Int.{add_one, ℤ}
use komodo_accounts_api.Dynamo.Items.{
  get_strings-stored_set, stored_set, key_eq_refl, started, lookup-insert, new_item, number,
  get_strings, insert, Item, Key, without, contains,
}
use komodo_accounts_api.Prelude.{
  ◌∙◌, sym, ap, ◌⊎◌, none, Option, false, inr, eq_iff, inl, refl, Bool-cases, [], true, arith, not,
  ◌&&◌, ◌||◌, ◌≡◌, ◌++◌, String, List, ◌==◌,
}
use komodo_accounts_api.Db.Settings.{
  deref_slice, UpdateSettingsTagsRequest, settings_key, mutate_settings_tags, Result, ok, mutate,
  mutate_any, DynamoDb, add_one, number, tags_update, get_strings, some, insert, Item, ℤ, Key,
  Option, ◌∷◌, String, List,
}

pub contains-append :
    (xs ys : List String) (x : String) → contains (xs ++ ys) x ≡ (contains xs x || contains ys x)
contains-append [] ys x = refl
contains-append (y ∷ xs) ys x = ground (arith, contains-append xs ys x)

contains-without :
    (ys xs : List String) (x : String)
    → contains (without ys xs) x ≡ (contains xs x && not (contains ys x))
contains-without ys [] x = refl
contains-without ys (z ∷ xs) x = elim (Bool-cases (contains ys z)) [
  | inl e ↦ rw (e, contains-without ys xs x) (go e)
  | inr e ↦ rw (e, contains-without ys xs x) (back e)
]
  where
    go :
        contains ys z ≡ true
        → (contains xs x && not (contains ys x))
          ≡ ((z == x || contains xs x) && not (contains ys x))
    go e = elim (Bool-cases (z == x)) [
      | inl same ↦ rw (same, ← (eq_iff z x).0 same, e) (ground arith)
      | inr other ↦ rw other refl
    ]

    back :
        contains ys z ≡ false
        → (z == x || contains xs x && not (contains ys x))
          ≡ ((z == x || contains xs x) && not (contains ys x))
    back e = elim (Bool-cases (z == x)) [
      | inl same ↦ rw (same, ← (eq_iff z x).0 same, e) refl
      | inr other ↦ rw other refl
    ]

contains-union :
    (old new : List String) (x : String)
    → contains (old ++ without old new) x ≡ (contains old x || contains new x)
contains-union old new x =
    rw (contains-append old (without old new) x, contains-without old new x) (ground arith)

abbrev pub stored_tags : Option Item → List String
stored_tags none = []
stored_tags (some it) = get_strings "tags" it

-- The items that the two one-sided changes leave, and that the two-sided one is refused.
module _ (key : Key) (version : ℤ) where
  abbrev bumped : Option Item → Item
  bumped old = insert "version" (number (add_one version)) (started key old)

  tags-bumped : (old : Option Item) → get_strings "tags" (bumped old) ≡ stored_tags old
  tags-bumped none = refl
  tags-bumped (some it) = rw (lookup-insert "version" "tags" (number (add_one version)) it) refl

  new_item-added :
      (a : String) (as' : List String) (old : Option Item)
      → new_item (tags_update key (a ∷ as') [] version) old
        ≡ some (
            stored_set "tags"
              (get_strings "tags" (bumped old)
                ++ without (get_strings "tags" (bumped old)) (a ∷ as'))
              (bumped old))
  unfolding tags_update
  new_item-added a as' old = refl

  new_item-removed :
      (r : String) (rs : List String) (old : Option Item)
      → new_item (tags_update key [] (r ∷ rs) version) old
        ≡ some (stored_set "tags" (without (r ∷ rs) (get_strings "tags" (bumped old))) (bumped old))
  unfolding tags_update
  new_item-removed r rs old = refl

  new_item-both :
      (a : String) (as' : List String) (r : String) (rs : List String) (old : Option Item)
      → new_item (tags_update key (a ∷ as') (r ∷ rs) version) old ≡ none
  unfolding tags_update
  new_item-both a as' r rs old = refl

module _ (d : DynamoDb) (laws : Lawful d) (account_id : String) (version : ℤ) (s : d.State) where
  abbrev tags_after : (add remove : List String) → Result (Unit {0}) × d.State
  tags_after add remove =
      answered d (settings_key account_id)
        (tags_update (settings_key account_id) add remove version) s

  mutate-built :
      (add remove : List String) → mutate d account_id add remove version s ≡ tags_after add remove
  unfolding tags_update
  mutate-built add remove = rw laws.build_key_lem refl

  tags_after-new :
      (add remove : List String)
      → (tags_after add remove).0 ≡ ok tt
      → (it : Item) × (new_item
            (tags_update (settings_key account_id) add remove version)
            (d.table s (settings_key account_id))
          ≡ some it)
        × (d.table (tags_after add remove).1 (settings_key account_id) ≡ some it)
  unfolding tags_update
  tags_after-new add remove e =
      let key = settings_key account_id in
      let r = tags_update key add remove version in
      let (it, done, state) = answer-ok d laws key r s e in
      let (_, made, after) = laws.update_ok r s it done in
      (it, made, ap (λ t. d.table t key) state ∙ after key ∙ rw (key_eq_refl key) refl)

  abbrev Members : (add remove : List String) → Result (Unit {0}) × d.State → Type 0
  Members add remove p =
      (x : String)
      → contains (stored_tags (d.table p.1 (settings_key account_id))) x ≡ (
          contains (stored_tags (d.table s (settings_key account_id))) x && not (contains remove x)
          || contains add x)

  members :
      (add remove : List String)
      → (mutate_any d account_id add remove version s).0 ≡ ok tt
      → Members add remove (mutate_any d account_id add remove version s)
        × ((add ≡ []) ⊎ (remove ≡ []))
  members [] [] e = (λ x. ground arith, inl refl)
  members [] (r ∷ rs) e =
      let key = settings_key account_id in
      let built = mutate-built [] (r ∷ rs) in
      let (it, made, after) = tags_after-new [] (r ∷ rs) (ap (λ p. p.0) (sym built) ∙ e) in
      let old = d.table s key in
      let item_is = sym (new_item-removed key version r rs old) ∙ made in
      (
        λ x.
            rw
              (
                ap (λ p. d.table p.1 key) built ∙ after ∙ sym item_is,
                get_strings-stored_set "tags"
                    (without (r ∷ rs) (get_strings "tags" (bumped key version old)))
                    (bumped key version old),
                tags-bumped key version old,
                contains-without (r ∷ rs) (stored_tags old) x,
              )
              (ground arith),
        inl refl,
      )
  members (a ∷ as') [] e =
      let key = settings_key account_id in
      let built = mutate-built (a ∷ as') [] in
      let (it, made, after) = tags_after-new (a ∷ as') [] (ap (λ p. p.0) (sym built) ∙ e) in
      let old = d.table s key in
      let item_is = sym (new_item-added key version a as' old) ∙ made in
      (
        λ x.
            rw
              (
                ap (λ p. d.table p.1 key) built ∙ after ∙ sym item_is,
                get_strings-stored_set "tags"
                      (get_strings "tags" (bumped key version old)
                        ++ without (get_strings "tags" (bumped key version old)) (a ∷ as'))
                      (bumped key version old)
                    ∙ ap (λ o. o ++ without o (a ∷ as')) (tags-bumped key version old),
                contains-union (stored_tags old) (a ∷ as') x,
              )
              (ground arith),
        inr refl,
      )
  members (a ∷ as') (r ∷ rs) e =
      let key = settings_key account_id in
      let built = mutate-built (a ∷ as') (r ∷ rs) in
      let (it, made, after) = tags_after-new (a ∷ as') (r ∷ rs) (ap (λ p. p.0) (sym built) ∙ e) in
      cc (new_item-both key version a as' r rs (d.table s key), made)

  -- A change of the tags that succeeds leaves the tags that were there and are not removed, and the
  -- tags that are added; and it does not both add and remove.
  pub mutate_settings_tags-members :
      (req : UpdateSettingsTagsRequest)
      → (mutate_settings_tags d account_id req version s).0 ≡ ok tt
      → ((x : String)
          → contains
              (stored_tags (
                d.table
                  (mutate_settings_tags d account_id req version s).1
                  (settings_key account_id)))
              x
            ≡ (contains (stored_tags (d.table s (settings_key account_id))) x
                  && not (contains (deref_slice req.remove) x)
                || contains (deref_slice req.add) x))
        × ((deref_slice req.add ≡ []) ⊎ (deref_slice req.remove ≡ []))
  unfolding mutate_settings_tags
  mutate_settings_tags-members req e = members (deref_slice req.add) (deref_slice req.remove) e
