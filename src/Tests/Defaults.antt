-- ===== src/Tests/Defaults.antt =====
-- Storing an address, and a payment method, that asks to be the default, on a table in memory.
use komodo_accounts_api.Api.Payments.Default.{service_upsert_payment-exclusive}
use komodo_accounts_api.Api.Payments.{service_upsert_payment}
use komodo_accounts_api.Db.Payments.{marshal as payment_item, payment_record_from, upsert_payment}
use komodo_accounts_api.Prelude.Int.{pos}
use komodo_accounts_api.Dynamo.Memory.Keeps.{memory-Lawful}
use komodo_accounts_api.Api.Address.Default.{add_address-exclusive}
use komodo_accounts_api.Db.Defaults.{
  set_payment_default, demotions, candidates_query, demote_and_promote_default, set_address_default,
}
use komodo_accounts_api.Dynamo.Items.{key_eq_sound, key_eq, key_of, Item, Key}
use komodo_accounts_api.Dynamo.Memory.{empty, memory, stored, Memory}
use komodo_accounts_api.Models.{PaymentMethod, Address}
use komodo_accounts_api.Db.Defaults.Exclusive.{flagged}
use komodo_accounts_api.Api.Address.{add_address}
use mathlib.Core.List.{Memᴰ}
use komodo_accounts_api.Prelude.{
  ◌==◌, Bool-cases, has_prefix, refl, [], ◌∷◌, ◌≡◌, true, false, some, none, List, inl, inr,
}
use komodo_accounts_api.Exec.{ok}
use komodo_accounts_api.Db.Address.{marshal, create_address, address_record_from}

abbrev home : Address
home = record {
  address_id = "";
  alias = none;
  city = "Paris";
  country = "FR";
  is_default = true;
  line1 = "1 rue";
  line2 = none;
  state = "IDF";
  zip_code = "75001";
}

abbrev home_stored : Address
home_stored = record home { address_id = "addr_x" }

abbrev old_item : Item
old_item = marshal (address_record_from "ACCOUNT#a1" "ADDR#1" (record home { address_id = "1" }))

abbrev home_item : Item
home_item = marshal (address_record_from "ACCOUNT#a1" "ADDR#addr_x" home_stored)

abbrev one_address : Memory
one_address = stored old_item empty

abbrev both_stored : Memory
both_stored = (create_address memory "x" "a1" home one_address).1

abbrev both_items : List Item
both_items = home_item ∷ old_item ∷ []

added-ok : (add_address memory 8 "x" "a1" home one_address).0 ≡ ok home_stored
unfolding add_address create_address set_address_default demote_and_promote_default demotions
added-ok = refl

both-listed : (memory.query (candidates_query "ACCOUNT#a1" "ADDR#") both_stored).0 ≡ ok both_items
unfolding create_address
both-listed = refl

listed_there :
    (k : Key) (it : Item)
    → k.pk ≡ "ACCOUNT#a1"
    → has_prefix k.sk "ADDR#" ≡ true
    → memory.table both_stored k ≡ some it
    → (c : Item) × Memᴰ c both_items × (key_of c ≡ k)
unfolding create_address
listed_there k it inside under found =
    elim (Bool-cases (key_eq (record { pk = "ACCOUNT#a1"; sk = "ADDR#addr_x" }) k)) [
      | inl second ↦ (home_item, Memᴰ.head refl, key_eq_sound _ k second)
      | inr first ↦ elim (Bool-cases (key_eq (record { pk = "ACCOUNT#a1"; sk = "ADDR#1" }) k)) [
        | inl one ↦ (old_item, Memᴰ.tail (Memᴰ.head refl), key_eq_sound _ k one)
        | inr neither ↦ cc (rw (first, neither) at found)
      ]
    ]

add_address-exclusive_example :
    (flagged (
        memory.table
          (add_address memory 8 "x" "a1" home one_address).1
          (record { pk = "ACCOUNT#a1"; sk = "ADDR#addr_x" }))
      ≡ true)
    × ((k : Key) (it : Item)
        → k.pk ≡ "ACCOUNT#a1"
        → has_prefix k.sk "ADDR#" ≡ true
        → memory.table one_address k ≡ some it
        → flagged (memory.table (add_address memory 8 "x" "a1" home one_address).1 k) ≡ false)
add_address-exclusive_example =
    add_address-exclusive memory memory-Lawful 8 "x" "a1" home home_stored one_address both_items
      added-ok refl both-listed (record { listed = listed_there })

abbrev card : PaymentMethod
card = record {
  brand = "visa";
  expiry_month = pos 1;
  expiry_year = pos 2030;
  is_default = true;
  last4 = "4242";
  payment_id = "";
  provider = "stripe";
}

abbrev card_stored : PaymentMethod
card_stored = record card { payment_id = "pay_x" }

abbrev old_card_item : Item
old_card_item =
    payment_item (payment_record_from "ACCOUNT#a1" "PAY#1" (record card { payment_id = "1" }))

abbrev card_item : Item
card_item = payment_item (payment_record_from "ACCOUNT#a1" "PAY#pay_x" card_stored)

abbrev one_card : Memory
one_card = stored old_card_item empty

abbrev both_cards : Memory
both_cards = (upsert_payment memory "x" "a1" card one_card).1

abbrev both_card_items : List Item
both_card_items = card_item ∷ old_card_item ∷ []

card-ok : (service_upsert_payment memory 8 "x" "a1" card one_card).0 ≡ ok card_stored
unfolding service_upsert_payment upsert_payment set_payment_default demote_and_promote_default
    demotions
card-ok = refl

cards-listed :
    (memory.query (candidates_query "ACCOUNT#a1" "PAY#") both_cards).0 ≡ ok both_card_items
unfolding upsert_payment
cards-listed = refl

card_there :
    (k : Key) (it : Item)
    → k.pk ≡ "ACCOUNT#a1"
    → has_prefix k.sk "PAY#" ≡ true
    → memory.table both_cards k ≡ some it
    → (c : Item) × Memᴰ c both_card_items × (key_of c ≡ k)
unfolding upsert_payment
card_there k it inside under found =
    elim (Bool-cases (key_eq (record { pk = "ACCOUNT#a1"; sk = "PAY#pay_x" }) k)) [
      | inl second ↦ (card_item, Memᴰ.head refl, key_eq_sound _ k second)
      | inr first ↦ elim (Bool-cases (key_eq (record { pk = "ACCOUNT#a1"; sk = "PAY#1" }) k)) [
        | inl one ↦ (old_card_item, Memᴰ.tail (Memᴰ.head refl), key_eq_sound _ k one)
        | inr neither ↦ cc (rw (first, neither) at found)
      ]
    ]

service_upsert_payment-exclusive_example :
    (flagged (
        memory.table
          (service_upsert_payment memory 8 "x" "a1" card one_card).1
          (record { pk = "ACCOUNT#a1"; sk = "PAY#pay_x" }))
      ≡ true)
    × ((k : Key) (it : Item)
        → k.pk ≡ "ACCOUNT#a1"
        → has_prefix k.sk "PAY#" ≡ true
        → (k.sk == "PAY#pay_x") ≡ false
        → memory.table one_card k ≡ some it
        → flagged (memory.table (service_upsert_payment memory 8 "x" "a1" card one_card).1 k)
          ≡ false)
service_upsert_payment-exclusive_example =
    service_upsert_payment-exclusive memory memory-Lawful 8 "x" "a1" card card_stored one_card
      both_card_items card-ok refl cards-listed (record { listed = card_there })
