-- ===== src/Admin/Server/Handlers.antt =====
-- crates/admin/src/admin/server.rs: the handlers of the clients' requests, and the tasks that they
-- start.
use ghaf_givc.Prelude.{
  Bool, true, false, ◌&&◌, Option, none, some, List, [], ◌∷◌, map, if◌then◌else◌, ◌==◌, list_eq,
  option_eq, nat_eq, find, Result, ok, err, vm_not_found, not_supported,
}
use ghaf_givc.Text.{Text, codes}
use ghaf_givc.Admin.Types.{UnitStatusMessage, is_valid}
use ghaf_givc.Admin.Naming.{vm, agent_service, vm_service}
use ghaf_givc.Admin.Query.{QueryResult}
use ghaf_givc.Admin.Entry.{RegistryEntry, RegistryRequest, entry_from, entry_into, is_mgr}
use ghaf_givc.Admin.Registry.{register, contents, values}
use ghaf_givc.Policy.{PolicyManager}
use ghaf_givc.Policy.Refresh.{Store, send_all_policies}
use ghaf_givc.Admin.Server.World.{
  Env, Service, Action, ◌>>=◌, ◌>>◌, pure, lift, raise, gets, match_result, change, spawn,
  EndpointConfig, LocaleAssignment, Call, locale_set, timezone_set, relay, Spawned, monitor_entry,
  greet, send_locale, send_timezone, open_channel, ask,
}
use ghaf_givc.Admin.Server.Endpoints.{endpoint, host_endpoint, agent_endpoint}
use ghaf_givc.Admin.Server.Units.{send_system_command, start_vm, unit_status_of}
use ghaf_givc.Admin.Server.Monitor.{monitor_routine}

abbrev pub assigns_empty : List LocaleAssignment → Bool
assigns_empty [] = true
assigns_empty (a ∷ rest) = false

module _ (env : Env) where
  abbrev pub spawn_monitor : RegistryEntry → Action (Unit {0})
  spawn_monitor entry = if is_valid entry.status then pure tt else spawn (monitor_entry entry)

  -- A new agent is told the locale and the timezone, if it can be resolved.
  abbrev pub spawn_greeting : RegistryEntry → Action (Unit {0})
  spawn_greeting entry =
      if is_mgr entry.unit_type.service
      then match_result (gets (agent_endpoint entry.name)) (pure tt)
          (λ ec w. spawn (greet ec w.service.locale_assigns w.service.timezone) w)
      else pure tt

  abbrev pub register_entry : RegistryEntry → Action (Unit {0})
  register_entry entry = do
    change (λ reg. ok (register entry reg))
    spawn_monitor entry
    spawn_greeting entry

  unfoldable pub register_service : RegistryRequest → Action (Unit {0})
  register_service req = do entry ← lift (entry_from req); register_entry entry

  -- The result of a call is ignored.
  abbrev pub try_call : Call → Action (Unit {0})
  try_call call = match_result (ask env call) (pure tt) (λ _. pure tt)

  abbrev send_updates : Store → Text → Option PolicyManager → Option PolicyManager
  send_updates store vm_name none = none
  send_updates store vm_name (some manager) = some (send_all_policies store vm_name manager)

  abbrev pub queue_policies : Store → Text → Action (Unit {0})
  queue_policies store vm_name w = (
    ok tt,
    record w {
      service = record w.service {
        policy_manager = send_updates store vm_name w.service.policy_manager;
      };
    },
  )

  -- Only what is set is told.
  abbrev pub tell_locale : EndpointConfig → List LocaleAssignment → Action (Unit {0})
  tell_locale ec assigns =
      if assigns_empty assigns then pure tt else try_call (locale_set ec assigns)

  abbrev pub tell_timezone : EndpointConfig → Text → Action (Unit {0})
  tell_timezone ec timezone =
      if timezone == [] then pure tt else try_call (timezone_set ec timezone)

  abbrev pub greet_connected :
      Store → EndpointConfig → List LocaleAssignment → Text → Action (Unit {0})
  greet_connected store ec assigns timezone = do
    queue_policies store ec.transport.tls_name
    tell_locale ec assigns
    tell_timezone ec timezone

  unfoldable pub run_greeting :
      Store → EndpointConfig → List LocaleAssignment → Text → Action (Unit {0})
  run_greeting store ec assigns timezone =
      match_result (open_channel env ec) (pure tt) (λ _. greet_connected store ec assigns timezone)

  -- The loops over the agents: one that does not answer is passed over.
  abbrev pub tell_one : (EndpointConfig → Call) → EndpointConfig → Action (Unit {0})
  tell_one call ec = match_result (open_channel env ec) (pure tt) (λ _. try_call (call ec))

  unfoldable pub tell_each : (EndpointConfig → Call) → List EndpointConfig → Action (Unit {0})
  tell_each call [] = pure tt
  tell_each call (ec ∷ rest) = do tell_one call ec; tell_each call rest

  unfoldable pub run_spawned : Store → Spawned → Action (Unit {0})
  run_spawned store (monitor_entry entry) = monitor_routine env entry
  run_spawned store (greet ec assigns timezone) = run_greeting store ec assigns timezone
  run_spawned store (send_locale agents assigns) = tell_each (λ ec. locale_set ec assigns) agents
  run_spawned store (send_timezone agents timezone) =
      tell_each (λ ec. timezone_set ec timezone) agents

  unfoldable pub start_vm_request : Text → Action Text
  start_vm_request vm_name = do
    start_vm env (vm_service (vm vm_name))
    pure (agent_service (vm vm_name))

  unfoldable pub poweroff : Action (Unit {0})
  poweroff = send_system_command env (codes "poweroff.target")

  unfoldable pub reboot : Action (Unit {0})
  reboot = send_system_command env (codes "reboot.target")

  unfoldable pub suspend : Action (Unit {0})
  suspend = send_system_command env (codes "suspend.target")

  unfoldable pub wakeup : Action (Unit {0})
  wakeup = raise not_supported

  unfoldable pub query_list : Action (List QueryResult)
  query_list = gets (λ s. ok (map entry_into (contents s.registry)))

  unfoldable pub get_unit_status : Text → Text → Action UnitStatusMessage
  get_unit_status unit_name vm_name = unit_status_of env (agent_service (vm vm_name)) unit_name

  -- A method of an agent, whose response is passed on.
  abbrev relayed : EndpointConfig → Text → Text → Action Text
  relayed ec method message = do open_channel env ec; ask env (relay ec method message)

  unfoldable pub get_sysinfo : Action Text
  get_sysinfo = do ec ← gets host_endpoint; relayed ec (codes "get_sysinfo") []

  -- `find_map` over the registry
  abbrev manager_named : Text → Service → Result EndpointConfig
  manager_named name s =
      found
        (find (λ re. is_mgr re.unit_type.service && (re.name == name)) (values s.registry.table))
    where
      found : Option RegistryEntry → Result EndpointConfig
      found none = err vm_not_found
      found (some re) = endpoint re s

  unfoldable pub get_stats : Text → Action Text
  get_stats vm_name = do
    ec ← gets (manager_named (agent_service (vm vm_name)))
    relayed ec (codes "get_stats") []

  unfoldable pub notify_user : Text → Text → Action Text
  notify_user vm_name notification = do
    ec ← gets (agent_endpoint (agent_service (vm vm_name)))
    relayed ec (codes "notify_user") notification

  unfoldable pub ctap : Text → Action Text
  ctap req = do
    ec ← gets (agent_endpoint (codes "givc-gui-vm.service"))
    relayed ec (codes "ctap") req
