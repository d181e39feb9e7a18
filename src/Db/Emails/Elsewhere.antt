-- ===== src/Db/Emails/Elsewhere.antt =====
-- The calls that write neither a profile nor a reservation (internal/db).
use komodo_accounts_api.Db.Payments.Stored.{payment_key, upsert_payment-written}
use komodo_accounts_api.Db.Address.Update.{update_address-patches, address_key}
use komodo_accounts_api.Models.{PasskeyCredential, ConsentLog, UpdateAddressRequest, PaymentMethod}
use komodo_accounts_api.Db.Address.{update_address, delete_address}
use komodo_accounts_api.Db.Consent.{append_consent_log}
use komodo_accounts_api.Dynamo.Laws.{Lawful}
use komodo_accounts_api.Dynamo.Items.{
  key_of, get_string, item_not_exists, Condition, Item, key_eq, Key,
}
use komodo_accounts_api.Dynamo.{DynamoDb}
use komodo_accounts_api.Db.Keys.{create_pk, pay_sk, passkey_sk, addr_sk}
use Prim.Native.Char.{char}
use komodo_accounts_api.Prelude.{
  Bool-cases, ◌==◌, refl, ◌≡◌, inl, inr, ◌∙◌, prefixed-ne, prefixed-ne_cons,
}
use komodo_accounts_api.Db.Payments.{delete_payment, upsert_payment}
use komodo_accounts_api.Db.Passkeys.{
  delete_passkey, create_passkey, marshal as passkey_item, passkey_record_from,
}
use komodo_accounts_api.Exec.{Result-cases, lift, ok, ◌>>=◌}
use komodo_accounts_api.Prelude.{ℕ, String, false, none}

-- A sort key of another kind.
abbrev pub Other : String → Type 0
Other sk = ((sk == "PROFILE") ≡ false) × ((sk == "EMAIL") ≡ false)

-- The states differ at one key of another kind at most.
abbrev pub Elsewhere : (d : DynamoDb) → d.State → d.State → Type 0
Elsewhere d s s' =
    (k : Key) × Other k.sk × ((j : Key) → key_eq k j ≡ false → d.table s' j ≡ d.table s j)

payments-Other : (payment_id : String) → Other (pay_sk payment_id)
payments-Other payment_id = (
  prefixed-ne_cons (char 80 tt) "AY#" payment_id "ROFILE"
      (prefixed-ne "AY#" payment_id "ROFILE" refl refl),
  prefixed-ne "PAY#" payment_id "EMAIL" refl refl,
)

passkeys-Other : (credential_id : String) → Other (passkey_sk credential_id)
passkeys-Other credential_id = (
  prefixed-ne_cons (char 80 tt) "ASSKEY#" credential_id "ROFILE"
      (prefixed-ne "ASSKEY#" credential_id "ROFILE" refl refl),
  prefixed-ne "PASSKEY#" credential_id "EMAIL" refl refl,
)

addresses-Other : (address_id : String) → Other (addr_sk address_id)
addresses-Other address_id = (
  prefixed-ne "ADDR#" address_id "PROFILE" refl refl,
  prefixed-ne "ADDR#" address_id "EMAIL" refl refl,
)

module _ (d : DynamoDb) (laws : Lawful d) where
  written-Elsewhere :
      (it : Item) (c : Condition) (s : d.State)
      → Other (get_string "SK" it)
      → (d.write_item it c s).0 ≡ ok tt
      → Elsewhere d s (d.write_item it c s).1
  written-Elsewhere it c s other h =
      let (_, after) = laws.write_ok it c s h in
      (key_of it, other, λ j away. after j ∙ rw away refl)

  deleted-Elsewhere :
      (pk sk : String) (s : d.State)
      → Other sk
      → ((lift (d.build_key pk sk) >>= d.delete_item) s).0 ≡ ok tt
      → Elsewhere d s ((lift (d.build_key pk sk) >>= d.delete_item) s).1
  deleted-Elsewhere pk sk s other h =
      let key : Key = record { pk = pk; sk = sk } in
      let built = laws.build_key_lem pk sk in
      let after = laws.delete_ok key s (rw built at h) in
      (key, other, λ j away. rw built (after j ∙ rw away refl))

  pub update_address-Elsewhere :
      (account_id address_id : String) (req : UpdateAddressRequest) (s : d.State)
      → (update_address d account_id address_id req s).0 ≡ ok tt
      → Elsewhere d s (update_address d account_id address_id req s).1
  update_address-Elsewhere account_id address_id req s h = (
    address_key account_id address_id,
    addresses-Other address_id,
    λ j away. (update_address-patches d laws account_id address_id req s h).0 j ∙ rw away refl,
  )

  pub delete_address-Elsewhere :
      (account_id address_id : String) (s : d.State)
      → (delete_address d account_id address_id s).0 ≡ ok tt
      → Elsewhere d s (delete_address d account_id address_id s).1
  unfolding delete_address
  delete_address-Elsewhere account_id address_id s h =
      deleted-Elsewhere (create_pk account_id) (addr_sk address_id) s (addresses-Other address_id) h

  pub delete_payment-Elsewhere :
      (account_id payment_id : String) (s : d.State)
      → (delete_payment d account_id payment_id s).0 ≡ ok tt
      → Elsewhere d s (delete_payment d account_id payment_id s).1
  unfolding delete_payment
  delete_payment-Elsewhere account_id payment_id s h =
      deleted-Elsewhere (create_pk account_id) (pay_sk payment_id) s (payments-Other payment_id) h

  pub delete_passkey-Elsewhere :
      (account_id credential_id : String) (s : d.State)
      → (delete_passkey d account_id credential_id s).0 ≡ ok tt
      → Elsewhere d s (delete_passkey d account_id credential_id s).1
  unfolding delete_passkey
  delete_passkey-Elsewhere account_id credential_id s h =
      deleted-Elsewhere (create_pk account_id) (passkey_sk credential_id) s
        (passkeys-Other credential_id) h

  pub append_consent_log-Elsewhere :
      (stamp : ℕ → String) (now : ℕ) (account_id : String) (entry : ConsentLog) (s : d.State)
      → (append_consent_log d stamp now account_id entry s).0 ≡ ok tt
      → Elsewhere d s (append_consent_log d stamp now account_id entry s).1
  unfolding append_consent_log
  append_consent_log-Elsewhere stamp now account_id entry s h =
      written-Elsewhere _ item_not_exists s
        (prefixed-ne "CONSENT#" _ "PROFILE" refl refl, prefixed-ne "CONSENT#" _ "EMAIL" refl refl) h

  pub upsert_payment-Elsewhere :
      (fresh account_id : String) (method stored : PaymentMethod) (s : d.State)
      → (upsert_payment d fresh account_id method s).0 ≡ ok stored
      → Elsewhere d s (upsert_payment d fresh account_id method s).1
  upsert_payment-Elsewhere fresh account_id method stored s h =
      let (_, _, after) = upsert_payment-written d laws fresh account_id method s stored h in
      (
        payment_key account_id stored.payment_id,
        payments-Other stored.payment_id,
        λ j away. after j ∙ rw away refl,
      )

  pub create_passkey-Elsewhere :
      (now : ℕ) (account_id : String) (cred stored : PasskeyCredential) (s : d.State)
      → (create_passkey d now account_id cred s).0 ≡ ok stored
      → Elsewhere d s (create_passkey d now account_id cred s).1
  unfolding create_passkey
  create_passkey-Elsewhere now account_id cred stored s h =
      let c : PasskeyCredential = record cred { created_at = now; last_used_at = none } in
      let it =
        passkey_item (passkey_record_from (create_pk account_id) (passkey_sk c.credential_id) c) in
      elim (Bool-cases (cred.credential_id == "")) [
        | inl nameless ↦ cc (rw nameless at h)
        | inr named ↦ elim (Result-cases (d.write_item it item_not_exists s).0) [
          | inr (e, failed) ↦ cc (rw (named, failed) at h)
          | inl (_, done) ↦
              let (k, other, kept) =
                written-Elsewhere it item_not_exists s (passkeys-Other c.credential_id) done in
              (k, other, λ j away. rw (named, done) (kept j away))
        ]
      ]
