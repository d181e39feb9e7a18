-- ===== src/Models/Agreement.antt =====
-- The tables of channels (internal/models/enums.go) against the generated enumerations.
use komodo_accounts_api.Models.Enums.{consent_log_channel_valid}
use komodo_accounts_api.Models.{valid_communication_channels}
use komodo_accounts_api.Prelude.{arith, ◌≡◌}
use komodo_accounts_api.Prelude.{String}

-- The channels that the service accepts are the members of the generated enumeration.
pub valid_communication_channels_lem :
    (c : String) → valid_communication_channels c ≡ consent_log_channel_valid c
unfolding valid_communication_channels consent_log_channel_valid
valid_communication_channels_lem c = ground arith
