-- ===== src/Db/Draft.antt =====
-- How the partial updates build `SET #a = :a, …`: three collections side by side, extended together
-- by each field that is present.
pub mod Resolve
pub mod Apply
use komodo_accounts_api.Errors.{conditional_check_failed, is, Err}
use komodo_accounts_api.Prelude.{if◌then◌else◌, String, Option, none, some, List, [], ◌∷◌, ◌++◌}
use komodo_accounts_api.Dynamo.Items.{item_exists, UpdateRequest, Key, Attr, insert}

pub record Draft : Type 0 where
  pub set : List (String × String)
  pub values : List (String × Attr)
  pub names : List (String × String)

abbrev pub no_clauses : Draft
no_clauses = record { set = []; values = []; names = [] }

-- `append(setClauses, "#n = :v")`, `exprValues[":v"] = x`, `exprNames["#n"] = attribute`
abbrev pub clause : (name value attribute : String) → Attr → Draft → Draft
clause name value attribute x d = record {
  set = d.set ++ (name, value) ∷ [];
  values = insert value x d.values;
  names = insert name attribute d.names;
}

-- the same under `if p != nil`
abbrev pub clause_if {ℓ} :
    {A : Type ℓ} → (name value attribute : String) → (A → Attr) → Option A → Draft → Draft
clause_if name value attribute wrap none d = d
clause_if name value attribute wrap (some x) d = clause name value attribute (wrap x) d

-- What a field that is present is meant to assign.
abbrev pub field {ℓ} : {A : Type ℓ} → String → (A → Attr) → Option A → List (String × Attr)
field attribute wrap none = []
field attribute wrap (some x) = (attribute, wrap x) ∷ []

-- The update that a draft makes of an item that exists.
abbrev pub update_of : Key → Draft → UpdateRequest
update_of key draft = record {
  key = key;
  set = draft.set;
  add = [];
  delete = [];
  values = draft.values;
  names = draft.names;
  condition = item_exists;
}

-- `errors.As(err, &conditionalCheckErr)`
abbrev pub conditional : Err → Err → Err
conditional refused e = if is e conditional_check_failed then refused else e
