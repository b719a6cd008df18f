-- ===== src/Admin/Server/Apps.antt =====
-- crates/admin/src/admin/server.rs: applications.
use ghaf_givc.Prelude.{
  Bool, true, Option, none, some, List, [], ◌∷◌, if◌then◌else◌, list_eq, option_eq, nat_eq, Error,
  Result, ok, panic, ensure, failed_to_stop, failed_to_pause, failed_to_resume,
}
use ghaf_givc.Text.{Text}
use ghaf_givc.Admin.Types.{UnitStatus, is_exitted, is_paused, is_running, app_vm, app}
use ghaf_givc.Admin.Naming.{VmName, vm, app as app_machine, agent_service, vm_service}
use ghaf_givc.Admin.Entry.{RegistryEntry, managed}
use ghaf_givc.Admin.Registry.{Registry, register, by_name, create_unique_entry_name}
use ghaf_givc.Admin.Server.World.{
  Env, Action, ◌>>=◌, ◌>>◌, pure, lift, gets, match_result, change, EndpointConfig,
}
use ghaf_givc.Admin.Server.Client.{start_application, stop_remote, pause_remote, resume_remote}
use ghaf_givc.Admin.Server.Endpoints.{agent_endpoint, app_entries}
use ghaf_givc.Admin.Server.Units.{start_vm, is_active}

-- `ApplicationRequest` of the protocol.
pub record ApplicationRequest : Type 0 where
  pub app_name : Text
  pub vm_name : Option Text
  pub args : List Text

-- The machine that the request names, or else the application's own.
abbrev vm_of : Text → Option Text → VmName
vm_of name none = app_machine name
vm_of name (some vmname) = vm vmname

unfoldable pub app_vm_name : ApplicationRequest → VmName
app_vm_name req = vm_of req.app_name req.vm_name

abbrev pub app_entry : VmName → UnitStatus → RegistryEntry
app_entry machine status = record {
  name = status.name;
  unit_type = record { vm = app_vm; service = app };
  status = status;
  placement = managed (vm_service machine) (agent_service machine);
  watch = true;
}

-- `create_unique_entry_name` does not end where this panics.
abbrev pub unique_name : Text → Registry → Result Text
unique_name name reg = or_diverge (create_unique_entry_name name reg)
  where
    or_diverge : Option Text → Result Text
    or_diverge none = panic
    or_diverge (some s) = ok s

module _ (env : Env) where
  abbrev pub start_agent : VmName → Action (Unit {0})
  start_agent machine = do
    start_vm env (vm_service machine)
    gets (λ s. by_name (agent_service machine) s.registry)
    pure tt

  -- The machine of an agent that is not there is started, and its agent must be there then.
  unfoldable pub ensure_agent : VmName → Action (Unit {0})
  ensure_agent machine =
      match_result (gets (λ s. by_name (agent_service machine) s.registry)) (start_agent machine)
        (λ _. pure tt)

  abbrev pub register_active : VmName → UnitStatus → Action (Unit {0})
  register_active machine status =
      if is_active status
      then change (λ reg. ok (register (app_entry machine status) reg))
      else pure tt

  abbrev pub register_as : ApplicationRequest → UnitStatus → Action Text
  register_as req status = do register_active (app_vm_name req) status; pure status.name

  abbrev pub start_unit_as : ApplicationRequest → EndpointConfig → Text → Action Text
  start_unit_as req ec app_name = do
    status ← start_application env ec app_name req.args
    register_as req status

  abbrev pub start_on : ApplicationRequest → EndpointConfig → Action Text
  start_on req ec = do
    app_name ← gets (λ s. unique_name req.app_name s.registry)
    start_unit_as req ec app_name

  unfoldable pub start_app : ApplicationRequest → Action Text
  start_app req = do
    ensure_agent (app_vm_name req)
    ec ← gets (agent_endpoint (agent_service (app_vm_name req)))
    start_on req ec

  -- The loops of the handlers: each unit is told, and its answer must pass the test.
  unfoldable pub for_entries :
      (EndpointConfig → Text → Action UnitStatus)
      → (UnitStatus → Bool)
      → Error
      → EndpointConfig
      → List Text
      → Action (Unit {0})
  for_entries call test failed ec [] = pure tt
  for_entries call test failed ec (each ∷ rest) = do
    status ← call ec each
    lift (ensure (test status) failed)
    for_entries call test failed ec rest

  abbrev pub on_entries :
      (EndpointConfig → Text → Action UnitStatus)
      → (UnitStatus → Bool)
      → Error
      → ApplicationRequest
      → Action (Unit {0})
  on_entries call test failed req = do
    ec ← gets (agent_endpoint req.app_name)
    entries ← gets (app_entries req.app_name)
    for_entries call test failed ec entries

  unfoldable pub pause_application : ApplicationRequest → Action (Unit {0})
  pause_application = on_entries (pause_remote env) is_paused failed_to_pause

  unfoldable pub resume_application : ApplicationRequest → Action (Unit {0})
  resume_application = on_entries (resume_remote env) is_running failed_to_resume

  unfoldable pub stop_application : ApplicationRequest → Action (Unit {0})
  stop_application = on_entries (stop_remote env) is_exitted failed_to_stop
