-- ===== src/Db/Address/Update.antt =====
-- What a partial update of an address writes.
use komodo_accounts_api.Db.Keys.{addr_sk, create_pk}
use komodo_accounts_api.Db.Draft.Apply.{update-patched, IsPlain, patched-nil, patched}
use komodo_accounts_api.Exec.{Result-cases, ok}
use komodo_accounts_api.Dynamo.Laws.{Lawful}
use komodo_accounts_api.Prelude.{
  inr, inl, sym, ap, none, ◌≢◌, ◌≡◌, String, refl, List, [], ◌∷◌, ◌++◌,
}
use komodo_accounts_api.Dynamo.Items.{resolve, Key, Attr, string, boolean}
use komodo_accounts_api.Models.{UpdateAddressRequest}
use komodo_accounts_api.Db.Draft.{Draft, field}
use komodo_accounts_api.Db.Draft.Resolve.{Resolves, Resolves-no_clauses, Resolves-clause_if}
use komodo_accounts_api.Db.Address.{
  addr_sk, update_address, create_pk, update_of, none, send_update, Draft, Key, DynamoDb,
  address_draft,
}

-- The fields that the request holds, each under its attribute's name.
abbrev pub assigned : UpdateAddressRequest → List (String × Attr)
assigned req =
    []
    ++ field "alias" string req.alias
    ++ field "line1" string req.line1
    ++ field "line2" string req.line2
    ++ field "city" string req.city
    ++ field "state" string req.state
    ++ field "zip_code" string req.zip_code
    ++ field "country" string req.country
    ++ field "is_default" boolean req.is_default

address_draft-Resolves :
    (req : UpdateAddressRequest) → Resolves [] (address_draft req) (assigned req)
unfolding address_draft
address_draft-Resolves req = Resolves-clause_if _ _ _ boolean req.is_default _ _ _ refl (
    Resolves-clause_if _ _ _ string req.country _ _ _ refl (
      Resolves-clause_if _ _ _ string req.zip_code _ _ _ refl (
        Resolves-clause_if _ _ _ string req.state _ _ _ refl (
          Resolves-clause_if _ _ _ string req.city _ _ _ refl (
            Resolves-clause_if _ _ _ string req.line2 _ _ _ refl (
              Resolves-clause_if _ _ _ string req.line1 _ _ _ refl (
                Resolves-clause_if _ _ _ string req.alias _ _ _ refl (
                  Resolves-no_clauses (
                    ("#alias", ":alias")
                    ∷ ("#l1", ":l1")
                    ∷ ("#l2", ":l2")
                    ∷ ("#city", ":city")
                    ∷ ("#state", ":state")
                    ∷ ("#zc", ":zc")
                    ∷ ("#country", ":country")
                    ∷ ("#isd", ":isd")
                    ∷ [])))))))))

abbrev pub address_key : (account_id address_id : String) → Key
address_key account_id address_id = record { pk = create_pk account_id; sk = addr_sk address_id }

module _ (d : DynamoDb) (laws : Lawful d) where
  send_update-ok :
      (key : Key) (draft : Draft) (cs : List (String × String)) (xs : List (String × Attr))
      (s : d.State)
      → draft.set ≡ cs
      → Resolves [] draft xs
      → (send_update d key draft cs s).0 ≡ ok tt
      → ((j : Key) → d.table (send_update d key draft cs s).1 j ≡ patched key xs (d.table s) j)
        × (xs ≢ [] → d.table s key ≢ none)
  send_update-ok key draft [] xs s same r e =
      let nothing : xs ≡ [] = cc (same, r.resolved, ap (resolve draft.names draft.values) same) in
      (
        λ j. rw nothing (sym (patched-nil key (d.table s) j)),
        λ some_field. absurd (some_field nothing),
      )
  send_update-ok key draft (c ∷ cs) xs s same r e =
      elim (Result-cases (d.update_item (update_of key draft) s).0) [
        | inl (it, done) ↦
            let plain : IsPlain (update_of key draft) xs = record {
              resolved = r.resolved;
              adds = refl;
              deletes = refl;
              guarded = refl;
            } in
            let (found, _, after) =
              update-patched d laws (update_of key draft) xs s it plain done in
            (rw done after, λ _. found)
        | inr (x, failed) ↦ cc (rw failed at e)
      ]

  update_address-built :
      (account_id address_id : String) (req : UpdateAddressRequest) (s : d.State)
      → update_address d account_id address_id req s
        ≡ send_update d
            (address_key account_id address_id)
            (address_draft req)
            (address_draft req).set
            s
  unfolding update_address
  update_address-built account_id address_id req s = rw laws.build_key_lem refl

  -- An update that succeeds has assigned to the address's item exactly the fields that the request
  -- holds, and changed nothing else in the table; a request with a field needs the item to exist.
  pub update_address-patches :
      (account_id address_id : String) (req : UpdateAddressRequest) (s : d.State)
      → (update_address d account_id address_id req s).0 ≡ ok tt
      → ((j : Key)
          → d.table (update_address d account_id address_id req s).1 j
            ≡ patched (address_key account_id address_id) (assigned req) (d.table s) j)
        × (assigned req ≢ [] → d.table s (address_key account_id address_id) ≢ none)
  update_address-patches account_id address_id req s e =
      let built = update_address-built account_id address_id req s in
      rw built (
        send_update-ok (address_key account_id address_id) (address_draft req)
          (address_draft req).set (assigned req) s refl (address_draft-Resolves req)
          (rw built at e))
