-- ===== src/Db/Address/Created.antt =====
-- What CreateAddress stores (internal/db/address.go).
use komodo_accounts_api.Db.Account.Registered.{allows-absent}
use komodo_accounts_api.Db.Keys.{addr_sk, create_pk}
use komodo_accounts_api.Dynamo.Items.{item_not_exists, Key}
use komodo_accounts_api.Models.{Address}
use komodo_accounts_api.Dynamo.Laws.{with_item, Lawful}
use komodo_accounts_api.Dynamo.{DynamoDb}
use komodo_accounts_api.Prelude.{prefixed, if◌then◌else◌, ◌==◌, ◌≡◌, inl, inr}
use komodo_accounts_api.Exec.{Result-cases, ok}
use komodo_accounts_api.Prelude.{String, none, some}
use komodo_accounts_api.Db.Address.{
  item_not_exists, prefixed, address_record_from, addr_sk, create_pk, Key, Address, create_address,
  DynamoDb, marshal,
}

module _ (d : DynamoDb) (laws : Lawful d) where
  -- A creation that succeeds stores the address that it returns under a key that was free, and
  -- changes nothing else.
  pub create_address-stores :
      (fresh account_id : String) (addr a : Address) (s : d.State)
      → (create_address d fresh account_id addr s).0 ≡ ok a
      → (let key : Key = record { pk = create_pk account_id; sk = addr_sk a.address_id } in
          (d.table s key ≡ none)
          × ((j : Key)
              → d.table (create_address d fresh account_id addr s).1 j
                ≡ with_item key
                    (some (
                      marshal
                        (address_record_from (create_pk account_id) (addr_sk a.address_id) a)))
                    (d.table s)
                    j))
  unfolding create_address
  create_address-stores fresh account_id addr a s h =
      let addr' : Address =
        (if addr.address_id == ""
          then record addr { address_id = prefixed "addr_" fresh }
          else addr) in
      let it =
        marshal (address_record_from (create_pk account_id) (addr_sk addr'.address_id) addr') in
      elim (Result-cases (d.write_item it item_not_exists s).0) [
        | inr (e, failed) ↦ cc (rw failed at h)
        | inl (done, stored) ↦
            let same : addr' ≡ a = cc (rw stored at h) in
            let (free, after) = laws.write_ok it item_not_exists s stored in
            rw (← same) (allows-absent _ free, λ j. rw stored (after j))
      ]
