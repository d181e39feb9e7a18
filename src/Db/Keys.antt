-- ===== src/Db/Keys.antt =====
-- internal/db/utils.go and the sort keys of the other files.
use komodo_accounts_api.Prelude.{
  String, Bool, false, Option, none, some, List, [], ◌∷◌, ◌==◌, prefixed, to_lower, if◌then◌else◌,
}

abbrev pub create_pk : String → String
create_pk account_id = prefixed "ACCOUNT#" account_id

abbrev pub addr_sk : String → String
addr_sk address_id = prefixed "ADDR#" address_id

abbrev pub pay_sk : String → String
pay_sk payment_id = prefixed "PAY#" payment_id

abbrev pub passkey_sk : String → String
passkey_sk credential_id = prefixed "PASSKEY#" credential_id

unfoldable pub email_reservation_pk : String → String
email_reservation_pk email = prefixed "EMAIL#" (to_lower email)

-- `deref` at texts and at truth values
abbrev pub deref : Option String → String
deref none = ""
deref (some s) = s

abbrev pub deref_bool : Option Bool → Bool
deref_bool none = false
deref_bool (some b) = b

abbrev pub opt_str : String → Option String
opt_str s = if s == "" then none else some s

abbrev pub deref_slice {ℓ} : {A : Type ℓ} → Option (List A) → List A
deref_slice none = []
deref_slice (some xs) = xs

-- `ptrSlice`, and `optMap` on the entries of a map
abbrev pub ptr_slice {ℓ} : {A : Type ℓ} → List A → Option (List A)
ptr_slice [] = none
ptr_slice (x ∷ xs) = some (x ∷ xs)
