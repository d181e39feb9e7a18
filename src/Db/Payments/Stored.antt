-- ===== src/Db/Payments/Stored.antt =====
-- What is read back of a payment method that is stored (internal/db/payments.go).
use komodo_accounts_api.Db.Keys.{pay_sk, create_pk}
use komodo_accounts_api.Dynamo.Laws.{with_item, Lawful}
use komodo_accounts_api.Dynamo.Items.{
  key_eq_refl, allows, item_exists, item_not_exists, Key, Item, Condition,
}
use komodo_accounts_api.Models.{PaymentMethod}
use komodo_accounts_api.Dynamo.{DynamoDb}
use komodo_accounts_api.Prelude.{
  Bool-cases, ap, inr, ◌∙◌, sym, inl, some, Option, ◌≢◌, true, none, ◌≡◌, prefixed, if◌then◌else◌,
  String, ◌==◌, refl,
}
use komodo_accounts_api.Exec.{Result-cases, ok}
use komodo_accounts_api.Db.Payments.{
  some, true, item_exists, create_pk, payment_record_from, prefixed, item_not_exists, get_payment,
  Condition, Item, DynamoDb, PaymentMethod, String, upsert_payment, to_model, unmarshal, marshal,
}

abbrev pub payment_key : (account_id payment_id : String) → Key
payment_key account_id payment_id = record { pk = create_pk account_id; sk = pay_sk payment_id }

-- the method under the identifier that it is stored with
abbrev pub identified : (fresh : String) → PaymentMethod → PaymentMethod
identified fresh method =
    if method.payment_id == "" then record method { payment_id = prefixed "pay_" fresh } else method

abbrev pub guard : PaymentMethod → Condition
guard method = if method.payment_id == "" then item_not_exists else item_exists

abbrev pub item_of : (account_id : String) → PaymentMethod → Item
item_of account_id m = marshal (payment_record_from (create_pk account_id) (pay_sk m.payment_id) m)

module _ (d : DynamoDb) (laws : Lawful d) (fresh account_id : String) (method : PaymentMethod)
    (s : d.State) where
  pub upsert_payment-written :
      (m : PaymentMethod)
      → (upsert_payment d fresh account_id method s).0 ≡ ok m
      → (m ≡ identified fresh method)
        × (allows (guard method) (d.table s (payment_key account_id m.payment_id)) ≡ true)
        × ((j : Key)
            → d.table (upsert_payment d fresh account_id method s).1 j
              ≡ with_item
                  (payment_key account_id m.payment_id)
                  (some (item_of account_id m))
                  (d.table s)
                  j)
  unfolding upsert_payment
  upsert_payment-written m e =
      elim (Result-cases
        (d.write_item (item_of account_id (identified fresh method)) (guard method) s).0) [
          | inl (u, done) ↦
              let m_is : identified fresh method ≡ m = cc (rw done at e) in
              let (permitted, after) =
                laws.write_ok (item_of account_id (identified fresh method)) (guard method) s
                  done in
              (sym m_is, rw (← m_is) permitted, λ j. rw (← m_is, done) (after j))
          | inr (x, failed) ↦ cc (rw failed at e)
        ]

  -- If storing a payment method succeeds, a later read of it under the identifier returned, if that
  -- succeeds, gives the method returned; a method without an identifier takes a key that was free,
  -- and one with an identifier a key that was taken.
  pub upsert_payment-get_payment :
      (m : PaymentMethod)
      → (upsert_payment d fresh account_id method s).0 ≡ ok m
      → ((n : PaymentMethod)
          → (get_payment d account_id m.payment_id (upsert_payment d fresh account_id method s).1).0
            ≡ ok n
          → n ≡ m)
        × (if method.payment_id == ""
            then d.table s (payment_key account_id m.payment_id) ≡ none
            else (d.table s (payment_key account_id m.payment_id) ≢ none))
  unfolding get_payment
  upsert_payment-get_payment m e =
      let (m_is, permitted, after) = upsert_payment-written m e in
      let key = payment_key account_id m.payment_id in
      let s' = (upsert_payment d fresh account_id method s).1 in
      (
        λ n read. elim (Result-cases (d.get_item key s').0) [
          | inl (it, found) ↦
              let stored : d.table s' key ≡ some (item_of account_id m) =
                after key ∙ rw (key_eq_refl key) refl in
              let it_is : it ≡ item_of account_id m = cc (laws.get_ok key s' it found, stored) in
              let n_is : n ≡ to_model (unmarshal it) =
                cc (rw (laws.build_key_lem, found) at read) in
              n_is ∙ ap (λ i. to_model (unmarshal i)) it_is
          | inr (x, failed) ↦ cc (rw (laws.build_key_lem, failed) at read)
        ],
        elim (Bool-cases (method.payment_id == "")) [
          | inl create ↦ rw create (free _ (rw create at permitted))
          | inr update' ↦ rw update' (taken _ (rw update' at permitted))
        ],
      )
    where
      free : (o : Option Item) → allows item_not_exists o ≡ true → o ≡ none
      free none h = refl
      free (some it) h = cc

      taken : (o : Option Item) → allows item_exists o ≡ true → o ≢ none
      taken none h = cc
      taken (some it) h = λ absent. cc
