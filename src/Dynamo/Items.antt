-- ===== src/Dynamo/Items.antt =====
-- Items of the table, and the documented meaning of the expressions that internal/db sends.
use komodo_accounts_api.Prelude.{
  ℕ, String, ◌≡◌, refl, Bool, true, false, ◌&&◌, ◌||◌, Option, none, some, List, [], ◌∷◌, ◌++◌, map,
  arith, ◌==◌, eq_iff, if◌then◌else◌,
}
use komodo_accounts_api.Prelude.Int.{ℤ, pos, eqb_ℤ, leb_ℤ}

-- The attribute values that the program writes. `time` is a text attribute that holds an instant in
-- RFC 3339 form with nanoseconds.
pub data Attr : Type 0 where
  string : String → Attr
  number : ℤ → Attr
  boolean : Bool → Attr
  time : ℕ → Attr
  strings : List String → Attr
  string_set : List String → Attr
  booleans : List (String × Bool) → Attr

abbrev pub Item : Type 0
Item = List (String × Attr)

pub record Key : Type 0 where
  pub pk : String
  pub sk : String

abbrev pub key_eq : Key → Key → Bool
key_eq a b = a.pk == b.pk && a.sk == b.sk

pub key_eq_sound : (a b : Key) → key_eq a b ≡ true → a ≡ b
key_eq_sound a b h = ground (arith, eq_iff a.pk b.pk, eq_iff a.sk b.sk)

pub key_eq_refl : (a : Key) → key_eq a a ≡ true
key_eq_refl a = ground (arith, eq_iff a.pk a.pk, eq_iff a.sk a.sk)

module _ {ℓ} {V : Type ℓ} where
  -- A Go map with text keys, in some order of its entries.
  abbrev pub lookup : (name : String) (entries : List (String × V)) → Option V
  lookup name [] = none
  lookup name ((first, x) ∷ rest) = if first == name then some x else lookup name rest

  abbrev pub insert : (name : String) → V → (entries : List (String × V)) → List (String × V)
  insert name x [] = (name, x) ∷ []
  insert name x ((first, y) ∷ rest) =
      let later = insert name x rest in
      if first == name then (name, x) ∷ rest else (first, y) ∷ later

  pub lookup-insert :
      (name asked : String) (x : V) (entries : List (String × V))
      → lookup asked (insert name x entries)
        ≡ (if name == asked then some x else lookup asked entries)
  lookup-insert name asked x [] = refl
  lookup-insert name asked x ((first, y) ∷ rest) =
      let ih = lookup-insert name asked x rest in
      ground (ih, eq_iff first name, eq_iff first asked, eq_iff name asked, arith)

  abbrev pub drop_entry : (name : String) (entries : List (String × V)) → List (String × V)
  drop_entry name [] = []
  drop_entry name ((first, y) ∷ rest) =
      let later = drop_entry name rest in if first == name then later else (first, y) ∷ later

  pub lookup-drop_entry :
      (name asked : String) (entries : List (String × V))
      → lookup asked (drop_entry name entries)
        ≡ (if name == asked then none else lookup asked entries)
  lookup-drop_entry name asked [] = ground arith
  lookup-drop_entry name asked ((first, y) ∷ rest) =
      let ih = lookup-drop_entry name asked rest in
      ground (ih, eq_iff first name, eq_iff first asked, eq_iff name asked, arith)

-- The fields that `attributevalue` unmarshals: an absent attribute leaves the zero value.
abbrev as_string : Option Attr → String
as_string (some (string v)) = v
as_string _ = ""

abbrev as_number : Option Attr → ℤ
as_number (some (number v)) = v
as_number _ = pos 0

abbrev as_bool : Option Attr → Bool
as_bool (some (boolean v)) = v
as_bool _ = false

abbrev as_time : Option Attr → ℕ
as_time (some (time v)) = v
as_time _ = 0

abbrev as_time_pointer : Option Attr → Option ℕ
as_time_pointer (some (time v)) = some v
as_time_pointer _ = none

abbrev as_strings : Option Attr → List String
as_strings (some (strings v)) = v
as_strings (some (string_set v)) = v
as_strings _ = []

abbrev as_booleans : Option Attr → List (String × Bool)
as_booleans (some (booleans v)) = v
as_booleans _ = []

abbrev pub get_string : String → Item → String
get_string name it = as_string (lookup name it)

abbrev pub get_number : String → Item → ℤ
get_number name it = as_number (lookup name it)

abbrev pub get_bool : String → Item → Bool
get_bool name it = as_bool (lookup name it)

abbrev pub get_time : String → Item → ℕ
get_time name it = as_time (lookup name it)

abbrev pub get_time_pointer : String → Item → Option ℕ
get_time_pointer name it = as_time_pointer (lookup name it)

abbrev pub get_strings : String → Item → List String
get_strings name it = as_strings (lookup name it)

abbrev pub get_booleans : String → Item → List (String × Bool)
get_booleans name it = as_booleans (lookup name it)

abbrev pub key_of : Item → Key
key_of it = record { pk = get_string "PK" it; sk = get_string "SK" it }

-- `omitempty`
abbrev pub omit_empty : String → String → Item → Item
omit_empty name v rest = if v == "" then rest else (name, string v) ∷ rest

abbrev pub omit_nil : String → Option ℕ → Item → Item
omit_nil name none rest = rest
omit_nil name (some t) rest = (name, time t) ∷ rest

-- A condition: a key attribute exists exactly where the item does, so `attribute_exists(SK)` and
-- `attribute_not_exists(SK)` test the item. `equals` and `at_most` compare by placeholders.
pub data Condition : Type 0 where
  always item_exists item_not_exists : Condition
  equals at_most : (name value : String) → Condition
  and : Condition → Condition → Condition

-- `SET #a = :a, …`, `ADD #b :b`, `DELETE #c :c`, as pairs of placeholders.
pub record UpdateRequest : Type 0 where
  pub key : Key
  pub set : List (String × String)
  pub add : List (String × String)
  pub delete : List (String × String)
  pub values : List (String × Attr)
  pub names : List (String × String)
  pub condition : Condition

abbrev pub compare_numbers : (ℤ → ℤ → Bool) → Option Attr → Option Attr → Bool
compare_numbers p (some (number a)) (some (number b)) = p a b
compare_numbers p _ _ = false

abbrev pub named : List (String × String) → String → Item → Option Attr
named names ph it = elim (lookup ph names) [ none ↦ none | some a ↦ lookup a it ]

abbrev pub holds_on : UpdateRequest → Condition → Item → Bool
holds_on r always it = true
holds_on r item_exists it = true
holds_on r item_not_exists it = false
holds_on r (equals n v) it = compare_numbers eqb_ℤ (named r.names n it) (lookup v r.values)
holds_on r (at_most n v) it = compare_numbers leb_ℤ (named r.names n it) (lookup v r.values)
holds_on r (and c d) it = holds_on r c it && holds_on r d it

abbrev pub holds_absent : Condition → Bool
holds_absent always = true
holds_absent item_exists = false
holds_absent item_not_exists = true
holds_absent (equals n v) = false
holds_absent (at_most n v) = false
holds_absent (and c d) = holds_absent c && holds_absent d

-- Whether the condition of an update holds of what is stored at its key.
abbrev pub holds : UpdateRequest → Option Item → Bool
holds r none = holds_absent r.condition
holds r (some it) = holds_on r r.condition it

-- Whether a plain condition, with no placeholder, holds of what is stored.
abbrev pub allows : Condition → Option Item → Bool
allows item_exists none = false
allows item_not_exists (some it) = false
allows _ _ = true

-- The assignments that a list of clauses stands for; none where a placeholder is not defined.
abbrev pub paired :
    Option String → Option Attr → Option (List (String × Attr)) → Option (List (String × Attr))
paired (some a) (some v) (some rest) = some ((a, v) ∷ rest)
paired _ _ _ = none

abbrev pub resolve :
    List (String × String)
    → List (String × Attr)
    → List (String × String)
    → Option (List (String × Attr))
resolve names values [] = some []
resolve names values ((n, v) ∷ cs) =
    paired (lookup n names) (lookup v values) (resolve names values cs)

abbrev pub assign : List (String × Attr) → Item → Item
assign [] it = it
assign ((a, v) ∷ sets) it = assign sets (insert a v it)

pub assign-append :
    (xs ys : List (String × Attr)) (it : Item) → assign (xs ++ ys) it ≡ assign ys (assign xs it)
assign-append [] ys it = refl
assign-append ((a, v) ∷ xs) ys it = assign-append xs ys (insert a v it)

abbrev pub contains : List String → String → Bool
contains [] x = false
contains (y ∷ ys) x = y == x || contains ys x

abbrev pub without : List String → List String → List String
without ys [] = []
without ys (x ∷ xs) = let rest = without ys xs in if contains ys x then rest else x ∷ rest

abbrev elements : Attr → List String
elements (string_set xs) = xs
elements _ = []

-- The table holds no empty set: an attribute whose set has no member left is removed, and an absent
-- one stays absent.
abbrev pub stored_set : (name : String) → List String → Item → Item
stored_set name [] it = drop_entry name it
stored_set name (x ∷ xs) it = insert name (string_set (x ∷ xs)) it

pub get_strings-stored_set :
    (name : String) (xs : List String) (it : Item) → get_strings name (stored_set name xs it) ≡ xs
get_strings-stored_set name [] it =
    rw (lookup-drop_entry name name it, (eq_iff name name).1 refl) refl
get_strings-stored_set name (x ∷ xs) it =
    rw (lookup-insert name name (string_set (x ∷ xs)) it, (eq_iff name name).1 refl) refl

abbrev pub add_sets : List (String × Attr) → Item → Item
add_sets [] it = it
add_sets ((a, v) ∷ adds) it =
    let old = get_strings a it in add_sets adds (stored_set a (old ++ without old (elements v)) it)

abbrev pub delete_sets : List (String × Attr) → Item → Item
delete_sets [] it = it
delete_sets ((a, v) ∷ dels) it =
    delete_sets dels (stored_set a (without (elements v) (get_strings a it)) it)

abbrev pub overlap : List (String × Attr) → List (String × Attr) → Bool
overlap [] ys = false
overlap ((a, _) ∷ xs) ys = contains (map (λ p. p.0) ys) a || overlap xs ys

-- An update on a missing key starts from the key's attributes alone.
abbrev pub started : Key → Option Item → Item
started k none = ("PK", string k.pk) ∷ ("SK", string k.sk) ∷ []
started k (some it) = it

abbrev changed :
    Option (List (String × Attr))
    → Option (List (String × Attr))
    → Option (List (String × Attr))
    → Item
    → Option Item
changed (some sets) (some adds) (some dels) it =
    if overlap sets adds || overlap sets dels || overlap adds dels
    then none
    else some (delete_sets dels (add_sets adds (assign sets it)))
changed _ _ _ it = none

-- The item that an update leaves; none where the expression is refused: an undefined placeholder,
-- or one attribute in two clauses.
abbrev pub new_item : UpdateRequest → Option Item → Option Item
new_item r old =
    changed (resolve r.names r.values r.set) (resolve r.names r.values r.add)
      (resolve r.names r.values r.delete) (started r.key old)
