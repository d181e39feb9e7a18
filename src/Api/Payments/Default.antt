-- ===== src/Api/Payments/Default.antt =====
-- The default flag after a payment method is stored (internal/api/payments.go).
use komodo_accounts_api.Db.Payments.Stored.{upsert_payment-written}
use komodo_accounts_api.Db.Defaults.Exclusive.{
  other_key, demote_and_promote_default-exclusive, flagged, Covers,
}
use komodo_accounts_api.Db.Keys.{pay_sk, create_pk}
use komodo_accounts_api.Db.Payments.{upsert_payment}
use komodo_accounts_api.Dynamo.Items.{Key, Item}
use komodo_accounts_api.Models.{PaymentMethod}
use komodo_accounts_api.Db.Defaults.{
  demote_and_promote_default, candidates_query, set_payment_default,
}
use komodo_accounts_api.Api.Payments.{
  upsert_payment_error, rethrow, pure, enforce_payment_default, Exec, upsert_payment, PaymentMethod,
  set_payment_default, service_upsert_payment,
}
use komodo_accounts_api.Dynamo.Laws.{Lawful}
use komodo_accounts_api.Dynamo.{DynamoDb}
use komodo_accounts_api.Prelude.{ap, has_prefix, ◌==◌, refl, ◌≡◌, ◌∙◌}
use komodo_accounts_api.Exec.{replaced-ok, rethrow, bind-ok, pure, Exec, ok, ◌>>◌}
use komodo_accounts_api.Prelude.{ℕ, String, List, true, false, some}

module _ (d : DynamoDb) (laws : Lawful d) where
  -- If storing a payment method that asks to be the default succeeds, and the page that the change of
  -- the default reads covers the account's methods, then afterwards the method is flagged as the
  -- default, and no other method that the account had before is.
  pub service_upsert_payment-exclusive :
      (now : ℕ) (fresh account_id : String) (pm m : PaymentMethod) (s : d.State) (page : List Item)
      → (service_upsert_payment d now fresh account_id pm s).0 ≡ ok m
      → m.is_default ≡ true
      → (let s' = (upsert_payment d fresh account_id pm s).1 in
          (d.query (candidates_query (create_pk account_id) "PAY#") s').0 ≡ ok page)
      → (let s' = (upsert_payment d fresh account_id pm s).1 in
          Covers (create_pk account_id) "PAY#" (d.table s') page)
      → (flagged (
            d.table
              (service_upsert_payment d now fresh account_id pm s).1
              (record { pk = create_pk account_id; sk = pay_sk m.payment_id }))
          ≡ true)
        × ((k : Key) (it : Item)
            → k.pk ≡ create_pk account_id
            → has_prefix k.sk "PAY#" ≡ true
            → (k.sk == pay_sk m.payment_id) ≡ false
            → d.table s k ≡ some it
            → flagged (d.table (service_upsert_payment d now fresh account_id pm s).1 k) ≡ false)
  unfolding service_upsert_payment set_payment_default
  service_upsert_payment-exclusive now fresh account_id pm m s page h default read covers =
      let r = upsert_payment d fresh account_id pm s in
      let pk = create_pk account_id in
      let target_sk = pay_sk m.payment_id in
      let finish : PaymentMethod → Exec d.State PaymentMethod =
        λ c. enforce_payment_default d now account_id c.payment_id c.is_default >> pure c in
      let (c, made, rest, whole) =
        bind-ok (rethrow upsert_payment_error (upsert_payment d fresh account_id pm)) finish s m
          h in
      let (done, enforced, last, ended) =
        bind-ok (enforce_payment_default d now account_id c.payment_id c.is_default)
          (λ done. pure c) r.1 m rest in
      let same : c ≡ m = cc (last) in
      let moved : (demote_and_promote_default d now pk "PAY#" target_sk r.1).0 ≡ ok tt =
        rw (same, default) at enforced in
      let state : (service_upsert_payment d now fresh account_id pm s).1
          ≡ (demote_and_promote_default d now pk "PAY#" target_sk r.1).1 =
        ap (λ q. q.1) whole ∙ ap (λ q. q.1) ended ∙ rw (same, default) refl in
      let created : r.0 ≡ ok m = replaced-ok upsert_payment_error r.0 m (rw same at made) in
      let (_, _, stored) = upsert_payment-written d laws fresh account_id pm s m created in
      let (promoted, demoted, _) =
        demote_and_promote_default-exclusive d laws now pk "PAY#" target_sk r.1 page read covers
          moved in
      (
        rw state promoted,
        λ k it inside under other there. rw state (
            demoted k it inside under other (stored k ∙ rw (other_key pk target_sk k other) there)),
      )
