-- ===== src/Api/Address/Default.antt =====
-- The default flag after an address is added (internal/api/address.go).
use komodo_accounts_api.Db.Address.Created.{create_address-stores}
use komodo_accounts_api.Db.Defaults.Exclusive.{
  other_key, demote_and_promote_default-exclusive, flagged, Covers,
}
use komodo_accounts_api.Db.Keys.{addr_sk, create_pk}
use komodo_accounts_api.Db.Address.{create_address}
use komodo_accounts_api.Dynamo.Items.{key_eq_sound, key_eq_refl, key_eq, Key, Item}
use komodo_accounts_api.Models.{Address}
use komodo_accounts_api.Db.Defaults.{
  demote_and_promote_default, candidates_query, set_address_default,
}
use komodo_accounts_api.Api.Address.{
  add_address_error, rethrow, pure, enforce_default, Exec, create_address, Address,
  set_address_default, add_address,
}
use komodo_accounts_api.Dynamo.Laws.{Lawful}
use komodo_accounts_api.Dynamo.{DynamoDb}
use komodo_accounts_api.Prelude.{eq_iff, Bool-cases, ◌∙◌, ap, has_prefix, ◌==◌, refl, ◌≡◌, inl, inr}
use komodo_accounts_api.Exec.{replaced-ok, rethrow, bind-ok, pure, Exec, ok, ◌>>◌}
use komodo_accounts_api.Prelude.{ℕ, String, List, true, false, some}

module _ (d : DynamoDb) (laws : Lawful d) where
  -- If adding an address that asks to be the default succeeds, and the page that the change of the
  -- default reads covers the account's addresses, then afterwards the address is flagged as the
  -- default, and no address that the account had before is.
  pub add_address-exclusive :
      (now : ℕ) (fresh account_id : String) (addr a : Address) (s : d.State) (page : List Item)
      → (add_address d now fresh account_id addr s).0 ≡ ok a
      → a.is_default ≡ true
      → (let s' = (create_address d fresh account_id addr s).1 in
          (d.query (candidates_query (create_pk account_id) "ADDR#") s').0 ≡ ok page)
      → (let s' = (create_address d fresh account_id addr s).1 in
          Covers (create_pk account_id) "ADDR#" (d.table s') page)
      → (flagged (
            d.table
              (add_address d now fresh account_id addr s).1
              (record { pk = create_pk account_id; sk = addr_sk a.address_id }))
          ≡ true)
        × ((k : Key) (it : Item)
            → k.pk ≡ create_pk account_id
            → has_prefix k.sk "ADDR#" ≡ true
            → d.table s k ≡ some it
            → flagged (d.table (add_address d now fresh account_id addr s).1 k) ≡ false)
  unfolding add_address set_address_default
  add_address-exclusive now fresh account_id addr a s page h default read covers =
      let r = create_address d fresh account_id addr s in
      let pk = create_pk account_id in
      let target_sk = addr_sk a.address_id in
      let finish : Address → Exec d.State Address =
        λ c. enforce_default d now account_id c.address_id c.is_default >> pure c in
      let (c, made, rest, whole) =
        bind-ok (rethrow add_address_error (create_address d fresh account_id addr)) finish s a h in
      let (done, enforced, last, ended) =
        bind-ok (enforce_default d now account_id c.address_id c.is_default) (λ done. pure c) r.1 a
          rest in
      let same : c ≡ a = cc (last) in
      let moved : (demote_and_promote_default d now pk "ADDR#" target_sk r.1).0 ≡ ok tt =
        rw (same, default) at enforced in
      let state : (add_address d now fresh account_id addr s).1
          ≡ (demote_and_promote_default d now pk "ADDR#" target_sk r.1).1 =
        ap (λ q. q.1) whole ∙ ap (λ q. q.1) ended ∙ rw (same, default) refl in
      let created : r.0 ≡ ok a = replaced-ok add_address_error r.0 a (rw same at made) in
      let (free, stored) = create_address-stores d laws fresh account_id addr a s created in
      let (promoted, demoted, _) =
        demote_and_promote_default-exclusive d laws now pk "ADDR#" target_sk r.1 page read covers
          moved in
      (
        rw state promoted,
        λ k it inside under there. elim (Bool-cases (k.sk == target_sk)) [
          | inl taken ↦
              let at_key : key_eq (record { pk = pk; sk = target_sk }) k ≡ true =
                rw (inside, (eq_iff k.sk target_sk).0 taken)
                  (key_eq_refl (record { pk = pk; sk = target_sk })) in
              cc (
                ap (d.table s) (key_eq_sound (record { pk = pk; sk = target_sk }) k at_key),
                free,
                there,
              )
          | inr other ↦ rw state (
              demoted k it inside under other
                (stored k ∙ rw (other_key pk target_sk k other) there))
        ],
      )
