-- ===== src/Admin/Server/Units.antt =====
-- crates/admin/src/admin/server.rs: starting, stopping and querying units and machines.
use ghaf_givc.Prelude.{
  ℕ, Bool, ◌&&◌, if◌then◌else◌, ◌==◌, list_eq, option_eq, nat_eq, ensure, vm_not_loaded,
  unable_to_launch, unit_not_loaded, failed_to_stop,
}
use ghaf_givc.Text.{Text, codes}
use ghaf_givc.Admin.Types.{UnitStatus, is_exitted, UnitStatusMessage, unit_status_into}
use ghaf_givc.Admin.Naming.{vm, agent_service}
use ghaf_givc.Admin.Entry.{RegistryEntry}
use ghaf_givc.Admin.Server.World.{
  Env, Action, ◌>>=◌, ◌>>◌, pure, lift, gets, pause_for, EndpointConfig,
}
use ghaf_givc.Admin.Server.Client.{get_remote_status, start_remote, stop_remote}
use ghaf_givc.Admin.Server.Endpoints.{host_endpoint, endpoint, agent_endpoint}

abbrev pub vm_startup_time : ℕ
vm_startup_time = 10

abbrev pub is_loaded : UnitStatus → Bool
is_loaded status = status.load_state == codes "loaded"

abbrev pub is_active : UnitStatus → Bool
is_active status = status.active_state == codes "active"

module _ (env : Env) where
  unfoldable pub entry_status : RegistryEntry → Action UnitStatus
  entry_status entry = do ec ← gets (endpoint entry); get_remote_status env ec entry.name

  unfoldable pub send_system_command : Text → Action (Unit {0})
  send_system_command name = do ec ← gets host_endpoint; start_remote env ec name; pure tt

  -- Nothing is to do for a unit that is running.
  abbrev pub start_loaded : EndpointConfig → Text → UnitStatus → Action (Unit {0})
  start_loaded ec unit status =
      if is_active status && (status.sub_state == codes "running")
      then pure tt
      else start_remote env ec unit >> pure tt

  unfoldable pub start_unit_on_vm : Text → Text → Action Text
  start_unit_on_vm unit vmname = do
    ec ← gets (agent_endpoint (agent_service (vm vmname)))
    status ← get_remote_status env ec unit
    lift (ensure (is_loaded status) unit_not_loaded)
    start_loaded ec unit status
    pure (agent_service (vm vmname))

  unfoldable pub stop_unit_on_vm : Text → Text → Action (Unit {0})
  stop_unit_on_vm unit vmname = do
    ec ← gets (agent_endpoint (agent_service (vm vmname)))
    status ← stop_remote env ec unit
    lift (ensure (is_exitted status) failed_to_stop)

  abbrev pub confirm : EndpointConfig → Text → Action (Unit {0})
  confirm ec name = do
    new_status ← get_remote_status env ec name
    lift (ensure (is_active new_status) unable_to_launch)

  -- A machine that is not active is started, and must be active ten seconds later.
  unfoldable pub launch : EndpointConfig → Text → Action (Unit {0})
  launch ec name = do start_remote env ec name; pause_for env vm_startup_time; confirm ec name

  abbrev pub start_checked : EndpointConfig → Text → UnitStatus → Action (Unit {0})
  start_checked ec name status = do
    lift (ensure (is_loaded status) vm_not_loaded)
    if is_active status then pure tt else launch ec name

  unfoldable pub start_vm : Text → Action (Unit {0})
  start_vm name = do
    ec ← gets host_endpoint
    status ← get_remote_status env ec name
    start_checked ec name status

  unfoldable pub unit_status_of : Text → Text → Action UnitStatusMessage
  unit_status_of vm_service unit_name = do
    ec ← gets (agent_endpoint vm_service)
    status ← get_remote_status env ec unit_name
    pure (unit_status_into status)
