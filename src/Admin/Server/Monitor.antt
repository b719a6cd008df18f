-- ===== src/Admin/Server/Monitor.antt =====
-- crates/admin/src/admin/server.rs: the supervision of the watched units.
use ghaf_givc.Prelude.{not, ◌||◌, List, [], ◌∷◌, if◌then◌else◌, list_eq, option_eq, nat_eq, ok}
use ghaf_givc.Admin.Types.{
  UnitStatus, is_valid, is_exitted, VmType, sys_vm, app_vm, ServiceType, mgr, app,
}
use ghaf_givc.Admin.Entry.{RegistryEntry, Placement, endpoint_of, managed, on_host}
use ghaf_givc.Admin.Registry.{deregister, update_state, watch_list}
use ghaf_givc.Admin.Server.World.{Env, Action, ◌>>=◌, ◌>>◌, pure, gets, match_result, change}
use ghaf_givc.Admin.Server.Units.{entry_status, start_vm, is_active}

module _ (env : Env) where
  -- Only a managed entry names the machine to restart.
  abbrev pub restart_machine : Placement → Action (Unit {0})
  restart_machine (endpoint_of transport vm) = pure tt
  restart_machine (managed vm parent) = start_vm env vm
  restart_machine on_host = pure tt

  abbrev pub drop_exitted : RegistryEntry → Action (Unit {0})
  drop_exitted entry = if is_exitted entry.status then change (deregister entry.name) else pure tt

  -- The `match` on the types of the machine and the unit.
  abbrev pub handle_error_of : VmType → ServiceType → RegistryEntry → Action (Unit {0})
  handle_error_of app_vm app entry = drop_exitted entry
  handle_error_of app_vm mgr entry = restart_machine entry.placement
  handle_error_of sys_vm mgr entry = restart_machine entry.placement
  handle_error_of _ _ entry = pure tt

  unfoldable pub handle_error : RegistryEntry → Action (Unit {0})
  handle_error entry = handle_error_of entry.unit_type.vm entry.unit_type.service entry

  -- The status is saved before the recovery, which goes by the entry as it was.
  abbrev pub save_and_recover : RegistryEntry → UnitStatus → Action (Unit {0})
  save_and_recover entry status = do
    change (update_state entry.name status)
    if not (is_valid status) || not (is_active status) then handle_error entry else pure tt

  unfoldable pub monitor_routine : RegistryEntry → Action (Unit {0})
  monitor_routine entry =
      match_result (entry_status env entry) (handle_error entry) (save_and_recover entry)

  -- An error of one unit does not keep the others from being watched.
  unfoldable pub monitor_entries : List RegistryEntry → Action (Unit {0})
  monitor_entries [] = pure tt
  monitor_entries (entry ∷ entries) =
      match_result (monitor_routine entry) (monitor_entries entries) (λ _. monitor_entries entries)

  -- One tick of the interval.
  unfoldable pub monitor : Action (Unit {0})
  monitor = do entries ← gets (λ s. ok (watch_list s.registry)); monitor_entries entries
