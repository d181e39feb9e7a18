-- ===== src/Db/Draft/Apply.antt =====
-- What a conditional update of an existing item leaves in the table.

use komodo_accounts_api.Prelude.{
  String, ◌≡◌, ◌≢◌, refl, false, Option, none, some, List, [], ◌∷◌, if◌then◌else◌, Bool-cases,
  Option-cases, inl, inr, ap, ◌∙◌, sym,
}
use komodo_accounts_api.Dynamo.{DynamoDb}
use komodo_accounts_api.Dynamo.Laws.{Table, Lawful}
use komodo_accounts_api.Dynamo.Items.{
  Attr, Item, Key, key_eq, key_eq_sound, UpdateRequest, resolve, assign, overlap, new_item, started,
  holds_absent,
}
use komodo_accounts_api.Exec.{ok}

abbrev pub patch : List (String × Attr) → Option Item → Option Item
patch xs none = none
patch xs (some it) = some (assign xs it)

-- The table with the item at one key patched, if there is one.
abbrev pub patched : Key → List (String × Attr) → Table → Table
patched k xs t j = if key_eq k j then patch xs (t j) else t j

overlap-nil : (xs : List (String × Attr)) → overlap xs [] ≡ false
overlap-nil [] = refl
overlap-nil (x ∷ xs) = overlap-nil xs

pub record IsPlain (r : UpdateRequest) (xs : List (String × Attr)) : Type 0 where
  pub resolved : resolve r.names r.values r.set ≡ some xs
  pub adds : r.add ≡ []
  pub deletes : r.delete ≡ []
  pub guarded : holds_absent r.condition ≡ false

new_item-plain :
    (r : UpdateRequest) (xs : List (String × Attr)) (old : Option Item)
    → IsPlain r xs
    → new_item r old ≡ some (assign xs (started r.key old))
new_item-plain r xs old p = rw (p.resolved, p.adds, p.deletes, overlap-nil xs) refl

patch-nil : (o : Option Item) → patch [] o ≡ o
patch-nil none = refl
patch-nil (some it) = refl

-- No assignment: the table is as it was.
pub patched-nil : (k : Key) (t : Table) (j : Key) → patched k [] t j ≡ t j
patched-nil k t j = elim (Bool-cases (key_eq k j)) [
  | inl e ↦ rw e (patch-nil (t j))
  | inr e ↦ rw e refl
]

module _ (d : DynamoDb) (laws : Lawful d) where
  pub update-patched :
      (r : UpdateRequest) (xs : List (String × Attr)) (s : d.State) (it : Item)
      → IsPlain r xs
      → (d.update_item r s).0 ≡ ok it
      → (d.table s r.key ≢ none)
        × (patch xs (d.table s r.key) ≡ some it)
        × ((j : Key) → d.table (d.update_item r s).1 j ≡ patched r.key xs (d.table s) j)
  update-patched r xs s it p e =
      let (test, made, after) = laws.update_ok r s it e in
      elim (Option-cases (d.table s r.key)) [
        | inl missing ↦ cc (p.guarded, rw missing at test)
        | inr (old, found) ↦
            let made' : patch xs (d.table s r.key) ≡ some it =
              rw found (sym (new_item-plain r xs (some old) p) ∙ (rw found at made)) in
            (
              λ absent. cc (found, absent),
              made',
              λ j. after j ∙ (elim (Bool-cases (key_eq r.key j)) [
                | inl same ↦
                    rw same (sym made' ∙ ap (λ k. patch xs (d.table s k)) (key_eq_sound _ _ same))
                | inr other ↦ rw other refl
              ]),
            )
      ]
