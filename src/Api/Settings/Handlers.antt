-- ===== src/Api/Settings/Handlers.antt =====
-- The route handlers of internal/api/settings.go.
use komodo_accounts_api.Api.Settings.Caller.{Caller, caller_service_from_scopes_lem}
use komodo_accounts_api.Api.Settings.{
  service_get_settings, service_update_settings, update_settings_tags, Bool, not,
  caller_service_from_scopes,
}
use komodo_accounts_api.Models.{UpdateSettingsTagsRequest, AccountSettings, UpdateSettingsRequest}
use komodo_accounts_api.Dynamo.{DynamoDb}
use komodo_accounts_api.Prelude.{
  ◌&&◌, refl, inr, inl, none, Bool-cases, ◌||◌, true, false, some, Bool, not, Option, ◌≡◌,
  if◌then◌else◌, String, ℕ, List, ◌==◌,
}
use komodo_accounts_api.Api.{
  failure, user_forbidden_namespace, status_ok, global_not_implemented, respond, refuse, with_body,
  global_unauthorized, some, requested_id, Option, require, String, List, Request, Reply,
}

module _ (d : DynamoDb) where
  unfoldable pub get_settings_handler :
      Request (Unit {0}) → d.State → Reply AccountSettings × d.State
  get_settings_handler req =
      require (requested_id req) global_unauthorized
        (respond status_ok (service_get_settings d (requested_id req)))

  unfoldable pub get_my_settings_handler :
      Request (Unit {0}) → d.State → Reply AccountSettings × d.State
  get_my_settings_handler req =
      require req.user_id global_unauthorized (refuse global_not_implemented)

  abbrev pub may_set_status : List String → Option String → Bool
  may_set_status scopes none = true
  may_set_status scopes (some status) =
      let caller_service = caller_service_from_scopes scopes in
      caller_service == "customer-servicing-api" || caller_service == "accounts-api"

  abbrev update_decoded :
      (now : ℕ) (account_id : String) (scopes : List String)
      → UpdateSettingsRequest
      → d.State
      → Reply AccountSettings × d.State
  update_decoded now account_id scopes input =
      if not (may_set_status scopes input.status)
      then refuse user_forbidden_namespace
      else respond status_ok (service_update_settings d now account_id input)

  unfoldable pub update_settings_handler :
      (now : ℕ) → Request UpdateSettingsRequest → d.State → Reply AccountSettings × d.State
  update_settings_handler now req =
      require req.path_id global_unauthorized
        (with_body req.body (update_decoded now req.path_id req.scopes))

  unfoldable pub update_settings_tags_handler :
      Request UpdateSettingsTagsRequest → d.State → Reply AccountSettings × d.State
  update_settings_tags_handler req =
      let caller_service = caller_service_from_scopes req.scopes in
      require req.path_id global_unauthorized (
        require caller_service global_unauthorized (
          with_body req.body
            (λ input. respond status_ok (update_settings_tags d req.path_id caller_service input))))

  abbrev pub given : Option String → Bool
  given none = false
  given (some _) = true

  abbrev pub trusted : String → Bool
  trusted name = name == "customer-servicing-api" || name == "accounts-api"

  may_set_status-given :
      (scopes : List String) (name : String) (status : Option String)
      → Caller scopes name
      → not (may_set_status scopes status) ≡ (given status && not (trusted name))
  may_set_status-given scopes name none caller = refl
  may_set_status-given scopes name (some status) caller =
      rw (caller_service_from_scopes_lem scopes name caller) refl

  -- The answer to a decoded update for a named account: it is refused with user_forbidden_namespace,
  -- and nothing is read or written, if it sets the status and the first service scope of the caller
  -- names neither the customer service nor this service; otherwise it is the answer of the service.
  -- A caller without a service scope counts as one of the empty name.
  pub update_settings_handler-status_guarded :
      (now : ℕ) (req : Request UpdateSettingsRequest) (input : UpdateSettingsRequest)
      (name : String) (s : d.State)
      → Caller req.scopes name
      → (req.path_id == "") ≡ false
      → req.body ≡ some input
      → update_settings_handler now req s ≡ (
          if given input.status && not (trusted name)
          then (failure user_forbidden_namespace, s)
          else respond status_ok (service_update_settings d now req.path_id input) s)
  unfolding update_settings_handler
  update_settings_handler-status_guarded now req input name s caller named body =
      let guard = may_set_status-given req.scopes name input.status caller in
      elim (Bool-cases (given input.status && not (trusted name))) [
        | inl refused ↦ rw (named, body, guard, refused) refl
        | inr allowed ↦ rw (named, body, guard, allowed) refl
      ]
