-- ===== src/Api/Settings/Confined.antt =====
-- Which tags of an account a service changes (internal/api/settings.go).
use komodo_accounts_api.Db.Keys.{deref_slice}
use komodo_accounts_api.Db.Settings.Tags.{
  mutate_settings_tags-members, contains-append, stored_tags,
}
use komodo_accounts_api.Dynamo.Items.{key_eq_refl, always, contains, Key}
use komodo_accounts_api.Models.{UpdateSettingsTagsRequest, AccountSettings}
use komodo_accounts_api.Dynamo.Laws.{Lawful}
use komodo_accounts_api.Dynamo.{DynamoDb}
use komodo_accounts_api.Errors.{repo_not_found, is_not_found, other, Err}
use komodo_accounts_api.Prelude.{
  arith, eq_iff, sym, inr, ltb, inl, none, ◌++◌, Bool-cases, Option, has_prefix, false, some, true,
  ◌∙◌, ap, ◌≡◌, List, String, ◌==◌, refl, [],
}
use komodo_accounts_api.Exec.{
  replaced-ok, ◌>>=◌, attempt, rethrow, lift, bind-ok, Result-cases, pure, continue, err, Result,
  ok,
}
use komodo_accounts_api.Db.Settings.{
  mutate_settings_tags, settings_key, update_settings, get_settings, to_model, unmarshal,
}
use komodo_accounts_api.Api.Settings.{
  mutate_settings_tags, write_error, attempt, rethrow, version_or_zero, lift, expected_tag_count,
  ltb, update_in_namespace, tag_re, none, Option, ◌∷◌, has_prefix, deref_slice, some, pure,
  contains, tag_namespace_map, default_settings, mutate_within, validate_tag_namespace,
  current_settings, is_not_found, List, err, UpdateSettingsTagsRequest, update_settings,
  AccountSettings, String, Result, Err, DynamoDb, validate_tags, update_settings_tags,
}

validate_tags-within :
    (prefix : String) (tags : List String) (x : String)
    → validate_tags prefix tags ≡ ok tt
    → contains tags x ≡ true
    → has_prefix x prefix ≡ true
unfolding validate_tags
validate_tags-within prefix [] x h k = cc
validate_tags-within prefix (t ∷ ts) x h k = elim (Bool-cases (tag_re t)) [
  | inr bad ↦ cc (rw bad at h)
  | inl good ↦ elim (Bool-cases (has_prefix t prefix)) [
    | inr foreign ↦ cc (rw (good, foreign) at h)
    | inl own ↦ elim (Bool-cases (t == x)) [
      | inl same ↦ rw (← (eq_iff t x).0 same) own
      | inr later ↦ validate_tags-within prefix ts x (rw (good, own) at h) (rw later at k)
    ]
  ]
]

abbrev stopped : Err → Result AccountSettings
stopped e = err e

abbrev stored_error : Result AccountSettings → Err
stored_error (ok _) = other
stored_error (err e) = e

module _ (d : DynamoDb) (laws : Lawful d) (account_id : String) where
  pub get_settings-built :
      (s : d.State)
      → get_settings d account_id s
        ≡ continue
            (λ it. pure (to_model (unmarshal it)))
            (d.get_item (settings_key account_id) s).0
            (d.get_item (settings_key account_id) s).1
  unfolding get_settings
  get_settings-built s = rw laws.build_key_lem refl

  pub get_settings-keeps :
      (s : d.State) (j : Key) → d.table (get_settings d account_id s).1 j ≡ d.table s j
  get_settings-keeps s j =
      ap (λ p. d.table p.1 j) (get_settings-built s)
      ∙ (elim (Result-cases (d.get_item (settings_key account_id) s).0) [
        | inl (it, found) ↦ rw found (laws.get_keeps (settings_key account_id) s j)
        | inr (e, failed) ↦ rw failed (laws.get_keeps (settings_key account_id) s j)
      ])

  get_settings-missing :
      (s : d.State) (e : Err)
      → (get_settings d account_id s).0 ≡ err e
      → is_not_found e ≡ true
      → d.table s (settings_key account_id) ≡ none
  get_settings-missing s e h k =
      let h' = ap (λ p. p.0) (sym (get_settings-built s)) ∙ h in
      elim (Result-cases (d.get_item (settings_key account_id) s).0) [
        | inl (it, found) ↦ cc (rw found at h')
        | inr (x, failed) ↦
            let same : stopped x ≡ stopped e = rw failed at h' in
            laws.get_missing (settings_key account_id) s
              (failed ∙ ap err (ap stored_error same ∙ missing_is e k))
      ]
    where
      missing_is : (e : Err) → is_not_found e ≡ true → e ≡ repo_not_found
      missing_is repo_not_found k = refl
      missing_is _ k = cc

  update_settings-tags :
      (s : d.State)
      → (update_settings d account_id default_settings s).0 ≡ ok tt
      → stored_tags
          (d.table (update_settings d account_id default_settings s).1 (settings_key account_id))
        ≡ []
  unfolding update_settings
  update_settings-tags s h =
      let (_, after) = laws.write_ok _ always s h in
      ap stored_tags (after (settings_key account_id))
      ∙ rw (key_eq_refl (settings_key account_id)) refl

  -- The settings that are written where there are none hold no tags.
  current_settings-tags :
      (s : d.State) (found : Result AccountSettings) (current : AccountSettings)
      → (get_settings d account_id s).0 ≡ found
      → (current_settings d account_id found (get_settings d account_id s).1).0 ≡ ok current
      → stored_tags (
          d.table
            (current_settings d account_id found (get_settings d account_id s).1).1
            (settings_key account_id))
        ≡ stored_tags (d.table s (settings_key account_id))
  current_settings-tags s (ok settings) current read h =
      ap stored_tags (get_settings-keeps s (settings_key account_id))
  current_settings-tags s (err e) current read h = elim (Bool-cases (is_not_found e)) [
    | inr unreadable ↦ cc (rw unreadable at h)
    | inl missing ↦
        let s' = (get_settings d account_id s).1 in
        let (u, written_ok, _, state) =
          bind-ok (update_settings d account_id default_settings) (λ _. pure default_settings) s'
            current (rw missing at h) in
        rw (missing, get_settings-missing s e read missing)
          (ap (λ p. stored_tags (d.table p.1 (settings_key account_id))) state
            ∙ (update_settings-tags s' written_ok))
  ]

  module _ (req : UpdateSettingsTagsRequest) where
    not_within :
        (prefix x : String)
        → validate_tag_namespace prefix (deref_slice req.add) (deref_slice req.remove) ≡ ok tt
        → has_prefix x prefix ≡ false
        → (contains (deref_slice req.add) x ≡ false) × (contains (deref_slice req.remove) x ≡ false)
    not_within prefix x h outside =
        let none_of : contains (deref_slice req.add ++ deref_slice req.remove) x ≡ false =
          elim (Bool-cases (contains (deref_slice req.add ++ deref_slice req.remove) x)) [
            | inl one ↦ cc (
              validate_tags-within prefix (deref_slice req.add ++ deref_slice req.remove) x h one,
              outside,
            )
            | inr none_there ↦ none_there
          ] in
        let split = contains-append (deref_slice req.add) (deref_slice req.remove) x in ground arith

    -- The tags outside the namespace are as before the change.
    mutate_within-tags :
        (current settings : AccountSettings) (s : d.State) (x : String)
        → (mutate_within d account_id req current s).0 ≡ ok settings
        → (contains (deref_slice req.add) x ≡ false) × (contains (deref_slice req.remove) x ≡ false)
        → contains
            (stored_tags
              (d.table (mutate_within d account_id req current s).1 (settings_key account_id)))
            x
          ≡ contains (stored_tags (d.table s (settings_key account_id))) x
    mutate_within-tags current settings s x h (a, r) =
        elim (Bool-cases (
          ltb 20 (
            expected_tag_count (deref_slice current.tags) (deref_slice req.add)
              (deref_slice req.remove)))) [
                | inl too_many ↦ cc (rw too_many at h)
                | inr few ↦
                    let version = version_or_zero req.version in
                    let (u, mutated, reread, state) =
                      bind-ok (rethrow write_error (mutate_settings_tags d account_id req version))
                        (λ _. get_settings d account_id) s settings (rw few at h) in
                    let s' = (mutate_settings_tags d account_id req version s).1 in
                    let (members, _) =
                      mutate_settings_tags-members d laws account_id version s req
                        (replaced-ok write_error _ tt mutated) in
                    let after : contains (stored_tags (d.table s' (settings_key account_id))) x
                        ≡ contains (stored_tags (d.table s (settings_key account_id))) x =
                      members x ∙ rw (a, r) (ground arith) in
                    rw few (
                      ap (λ p. contains (stored_tags (d.table p.1 (settings_key account_id))) x)
                        state
                      ∙ ap (λ o. contains (stored_tags o) x)
                          (get_settings-keeps s' (settings_key account_id))
                      ∙ after)
              ]

    -- With a client whose reads are up to date, a change of the tags that succeeds was made by a service
    -- with a namespace, and leaves the tags outside that namespace as they were; none, if there were no
    -- settings and they were written with their defaults first.
    pub update_settings_tags-confined :
        (caller_service : String) (s : d.State) (settings : AccountSettings)
        → (update_settings_tags d account_id caller_service req s).0 ≡ ok settings
        → (prefix : String) × (tag_namespace_map caller_service ≡ some prefix)
          × ((x : String)
              → has_prefix x prefix ≡ false
              → contains
                  (stored_tags (
                    d.table
                      (update_settings_tags d account_id caller_service req s).1
                      (settings_key account_id)))
                  x
                ≡ contains (stored_tags (d.table s (settings_key account_id))) x)
    unfolding update_settings_tags
    update_settings_tags-confined caller_service s settings h =
        go (tag_namespace_map caller_service) refl h
      where
        go :
            (o : Option String)
            → tag_namespace_map caller_service ≡ o
            → (update_in_namespace d account_id req o s).0 ≡ ok settings
            → (prefix : String) × (tag_namespace_map caller_service ≡ some prefix)
              × ((x : String)
                  → has_prefix x prefix ≡ false
                  → contains
                      (stored_tags (
                        d.table
                          (update_settings_tags d account_id caller_service req s).1
                          (settings_key account_id)))
                      x
                    ≡ contains (stored_tags (d.table s (settings_key account_id))) x)
        go none e k = cc
        go (some prefix) e k =
            let (u, valid, k₁, state₁) =
              bind-ok
                (lift
                  (validate_tag_namespace prefix (deref_slice req.add) (deref_slice req.remove)))
                (λ _. attempt (get_settings d account_id) >>= λ found.
                  current_settings d account_id found >>= λ current.
                  mutate_within d account_id req current)
                s settings k in
            let found = (get_settings d account_id s).0 in
            let s₁ = (get_settings d account_id s).1 in
            let (current, loaded, k₂, state₂) =
              bind-ok (current_settings d account_id found)
                (λ current. mutate_within d account_id req current) s₁ settings k₁ in
            let s₂ = (current_settings d account_id found s₁).1 in
            (
              prefix,
              e,
              λ x outside. rw e (
                  ap (λ p. contains (stored_tags (d.table p.1 (settings_key account_id))) x)
                    (state₁ ∙ state₂)
                  ∙ mutate_within-tags current settings s₂ x k₂ (not_within prefix x valid outside)
                  ∙ ap (λ ts. contains ts x) (current_settings-tags s found current refl loaded)),
            )
