-- ===== src/Tests/Others.antt =====
-- The default flag, addresses, payment methods, passkeys and the cache, run on concrete data.
use komodo_accounts_api.Dynamo.Memory.Keeps.{memory-Lawful}
use komodo_accounts_api.TtlCache.Lookup.{get-set}
use komodo_accounts_api.Db.Payments.Stored.{upsert_payment-get_payment, payment_key}
use komodo_accounts_api.Errors.{repo_sign_count_regression}
use mathlib.Core.List.{Memᴰ}
use komodo_accounts_api.Db.Passkeys.SignCount.{
  update_passkey-advances, update_passkey-regression, passkey_key,
}
use komodo_accounts_api.TtlCache.Bounds.{set-within}
use komodo_accounts_api.Db.Draft.Apply.{patched}
use komodo_accounts_api.Db.Payments.{get_payment, upsert_payment}
use komodo_accounts_api.Dynamo.Items.{
  key_eq_sound, key_eq, number, key_of, boolean, lookup, string, Item, Key,
}
use komodo_accounts_api.Dynamo.Memory.{empty, stored, memory, Memory}
use komodo_accounts_api.Db.Address.{address_draft, update_address}
use komodo_accounts_api.Models.{PasskeyCredential, UpdateAddressRequest, PaymentMethod}
use komodo_accounts_api.Db.Defaults.Exclusive.{
  demote_and_promote_default-exclusive, Covers, flagged,
}
use komodo_accounts_api.Prelude.Int.{leb_ℤ, ◌≤ℤ◌, pos, ℤ}
use komodo_accounts_api.Db.Defaults.{demotions, demote_and_promote_default}
use komodo_accounts_api.Prelude.{
  inr, inl, Bool-cases, ◌+◌, ◌≢◌, arith, ltb, has_prefix, true, some, false, ◌≤◌, none,
  if◌then◌else◌, Bool, ℕ, List, length, String, ◌≡◌, ◌==◌, refl, [], ◌∷◌,
}
use komodo_accounts_api.Exec.{err, ok}
use komodo_accounts_api.Db.Passkeys.{passkey_record_from, update_passkey, marshal}
use komodo_accounts_api.Db.Address.Update.{update_address-patches, address_key, assigned}
use komodo_accounts_api.TtlCache.{TtlCache, set, get}

abbrev card : PaymentMethod
card = record {
  brand = "visa";
  expiry_month = pos 4;
  expiry_year = pos 2030;
  is_default = true;
  last4 = "4242";
  payment_id = "";
  provider = "stripe";
}

abbrev stored_card : PaymentMethod
stored_card = record card { payment_id = "pay_k1" }

upserted-ok : (upsert_payment memory "k1" "a1" card empty).0 ≡ ok stored_card
unfolding upsert_payment
upserted-ok = refl

upsert_payment-get_payment_example :
    ((n : PaymentMethod)
      → (get_payment memory "a1" "pay_k1" (upsert_payment memory "k1" "a1" card empty).1).0 ≡ ok n
      → n ≡ stored_card)
    × (memory.table empty (payment_key "a1" "pay_k1") ≡ none)
upsert_payment-get_payment_example =
    upsert_payment-get_payment memory memory-Lawful "k1" "a1" card empty stored_card upserted-ok

abbrev address_item : (sk : String) → Bool → Item
address_item sk flag =
    ("PK", string "ACCOUNT#a1")
    ∷ ("SK", string sk)
    ∷ ("city", string "Paris")
    ∷ ("is_default", boolean flag)
    ∷ []

abbrev two_addresses : Memory
two_addresses = stored (address_item "ADDR#2" false) (stored (address_item "ADDR#1" true) empty)

abbrev moved : UpdateAddressRequest
moved = record {
  alias = none;
  city = some "Lyon";
  country = none;
  is_default = none;
  line1 = none;
  line2 = none;
  state = none;
  zip_code = none;
}

moved-ok : (update_address memory "a1" "1" moved two_addresses).0 ≡ ok tt
unfolding update_address address_draft
moved-ok = refl

update_address-patches_example :
    ((j : Key)
      → memory.table (update_address memory "a1" "1" moved two_addresses).1 j
        ≡ patched
            (address_key "a1" "1")
            (("city", string "Lyon") ∷ [])
            (memory.table two_addresses)
            j)
    × (assigned moved ≢ [] → memory.table two_addresses (address_key "a1" "1") ≢ none)
update_address-patches_example =
    update_address-patches memory memory-Lawful "a1" "1" moved two_addresses moved-ok

abbrev address_page : List Item
address_page = address_item "ADDR#2" false ∷ address_item "ADDR#1" true ∷ []

page-Covers : Covers "ACCOUNT#a1" "ADDR#" (memory.table two_addresses) address_page
page-Covers = record { listed = go }
  where
    go :
        (k : Key) (it : Item)
        → k.pk ≡ "ACCOUNT#a1"
        → has_prefix k.sk "ADDR#" ≡ true
        → memory.table two_addresses k ≡ some it
        → (c : Item) × Memᴰ c address_page × (key_of c ≡ k)
    go k it inside under found =
        elim (Bool-cases (key_eq (record { pk = "ACCOUNT#a1"; sk = "ADDR#2" }) k)) [
          | inl second ↦ (address_item "ADDR#2" false, Memᴰ.head refl, key_eq_sound _ k second)
          | inr first ↦ elim (Bool-cases (key_eq (record { pk = "ACCOUNT#a1"; sk = "ADDR#1" }) k)) [
            | inl one ↦
                (address_item "ADDR#1" true, Memᴰ.tail (Memᴰ.head refl), key_eq_sound _ k one)
            | inr neither ↦ cc (rw (first, neither) at found)
          ]
        ]

swapped-ok :
    (demote_and_promote_default memory 8 "ACCOUNT#a1" "ADDR#" "ADDR#2" two_addresses).0 ≡ ok tt
unfolding demote_and_promote_default demotions
swapped-ok = refl

demote_and_promote_default-exclusive_example :
    (flagged (
        memory.table
          (demote_and_promote_default memory 8 "ACCOUNT#a1" "ADDR#" "ADDR#2" two_addresses).1
          (record { pk = "ACCOUNT#a1"; sk = "ADDR#2" }))
      ≡ true)
    × ((k : Key) (it : Item)
        → k.pk ≡ "ACCOUNT#a1"
        → has_prefix k.sk "ADDR#" ≡ true
        → (k.sk == "ADDR#2") ≡ false
        → memory.table two_addresses k ≡ some it
        → flagged (
            memory.table
              (demote_and_promote_default memory 8 "ACCOUNT#a1" "ADDR#" "ADDR#2" two_addresses).1
              k)
          ≡ false)
    × (memory.table two_addresses (record { pk = "ACCOUNT#a1"; sk = "ADDR#2" }) ≢ none)
demote_and_promote_default-exclusive_example =
    demote_and_promote_default-exclusive memory memory-Lawful 8 "ACCOUNT#a1" "ADDR#" "ADDR#2"
      two_addresses address_page refl page-Covers swapped-ok

abbrev yubikey : ℤ → PasskeyCredential
yubikey sign_count = record {
  aaguid = none;
  backup_eligible = false;
  backup_state = false;
  created_at = 1;
  credential_id = "c1";
  last_used_at = none;
  public_key = "pk";
  sign_count = sign_count;
  transports = none;
}

abbrev with_passkey : Memory
with_passkey =
    stored (marshal (passkey_record_from "ACCOUNT#a1" "PASSKEY#c1" (yubikey (pos 5)))) empty

advanced-ok :
    (update_passkey memory "a1" "c1" (yubikey (pos 6)) with_passkey).0 ≡ ok (yubikey (pos 6))
unfolding update_passkey
advanced-ok = refl

regressed :
    (update_passkey memory "a1" "c1" (yubikey (pos 4)) with_passkey).0
    ≡ err repo_sign_count_regression
unfolding update_passkey
regressed = refl

update_passkey-advances_example :
    (old : Item) × (n : ℤ) × (memory.table with_passkey (passkey_key "a1" "c1") ≡ some old)
    × (lookup "sign_count" old ≡ some (number n))
    × (n ≤ℤ pos 6)
update_passkey-advances_example =
    (update_passkey-advances memory memory-Lawful "a1" "c1" (yubikey (pos 6)) with_passkey
      (yubikey (pos 6)) advanced-ok).0

update_passkey-regression_example :
    ((old : Item) × (memory.table with_passkey (passkey_key "a1" "c1") ≡ some old)
      × ((n : ℤ) → lookup "sign_count" old ≡ some (number n) → leb_ℤ n (pos 4) ≡ false))
    × ((j : Key)
        → memory.table (update_passkey memory "a1" "c1" (yubikey (pos 4)) with_passkey).1 j
          ≡ memory.table with_passkey j)
update_passkey-regression_example =
    update_passkey-regression memory memory-Lawful "a1" "c1" (yubikey (pos 4)) with_passkey
      regressed

abbrev full_cache : TtlCache ℕ
full_cache = record { entries = ("a", record { value = 1; expires_at = 50 }) ∷ []; max_entries = 1 }

set-within_example : length (set 10 "b" 2 60 full_cache).entries ≤ 1
unfolding set
set-within_example = set-within 10 "b" 2 60 full_cache (omega arith) (omega arith)

get-set_example :
    ((get 71 "b" (set 10 "b" 2 60 full_cache)).0 ≡ (if ltb (10 + 60) 71 then none else some 2))
    × ((j : String) (w : ℕ)
        → ("b" == j) ≡ false
        → (get 71 j (set 10 "b" 2 60 full_cache)).0 ≡ some w
        → (get 71 j full_cache).0 ≡ some w)
get-set_example = get-set 10 "b" 2 60 full_cache 71
