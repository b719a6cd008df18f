-- ===== src/Admin/Server/Client.antt =====
-- crates/admin/src/systemd_api/client.rs: the calls to an agent.
use ghaf_givc.Prelude.{
  Option, none, some, List, list_eq, option_eq, nat_eq, Result, err, missing_unit_status,
}
use ghaf_givc.Text.{Text}
use ghaf_givc.Admin.Types.{UnitStatus, UnitStatusMessage, unit_status_from}
use ghaf_givc.Admin.Server.World.{
  EndpointConfig, Call, get_unit_status, start_unit, stop_unit, kill_unit, freeze_unit,
  unfreeze_unit, Env, UnitResponse, Action, ◌>>=◌, ◌>>◌, open_channel, ask_unit, lift,
  start_application as start_application_call,
}

-- `context`, and the fields one by one.
abbrev status_of : Option UnitStatusMessage → Result UnitStatus
status_of none = err missing_unit_status
status_of (some status) = unit_status_from status

unfoldable pub status_response : UnitResponse → Result UnitStatus
status_response response = status_of response.unit_status

-- A call on a new connection.
unfoldable pub unit_call : Env → EndpointConfig → Call → Action UnitStatus
unit_call env ec call = do
  open_channel env ec
  response ← ask_unit env call
  lift (status_response response)

module _ (env : Env) (ec : EndpointConfig) where
  unfoldable pub get_remote_status : Text → Action UnitStatus
  get_remote_status unit = unit_call env ec (get_unit_status ec unit)

  unfoldable pub start_remote : Text → Action UnitStatus
  start_remote unit = unit_call env ec (start_unit ec unit)

  unfoldable pub stop_remote : Text → Action UnitStatus
  stop_remote unit = unit_call env ec (stop_unit ec unit)

  unfoldable pub kill_remote : Text → Action UnitStatus
  kill_remote unit = unit_call env ec (kill_unit ec unit)

  unfoldable pub pause_remote : Text → Action UnitStatus
  pause_remote unit = unit_call env ec (freeze_unit ec unit)

  unfoldable pub resume_remote : Text → Action UnitStatus
  resume_remote unit = unit_call env ec (unfreeze_unit ec unit)

  unfoldable pub start_application : Text → List Text → Action UnitStatus
  start_application unit args = unit_call env ec (start_application_call ec unit args)
