-- ===== src/Admin/Server/Orderly.antt =====
-- crates/admin/src/admin/server.rs: every request and task keeps the registry and the tasks as they
-- should be.
use ghaf_givc.Prelude.{
  refl, Bool, ◌&&◌, List, [], ◌∷◌, ◌==◌, list_eq, option_eq, nat_eq, Error, ok, ensure,
  vm_not_loaded, unit_not_loaded, failed_to_stop, failed_to_pause, failed_to_resume,
}
use ghaf_givc.Text.{Text, codes}
use ghaf_givc.Admin.Types.{UnitStatus, is_exitted, is_paused, is_running}
use ghaf_givc.Admin.Naming.{VmName, vm, agent_service, vm_service}
use ghaf_givc.Admin.Entry.{RegistryEntry}
use ghaf_givc.Admin.Registry.{register, by_name}
use ghaf_givc.Admin.Server.World.{
  Env, Action, ◌>>=◌, ◌>>◌, pure, lift, gets, change, EndpointConfig, Call, pause_for,
  get_unit_status, start_unit, stop_unit, freeze_unit, unfreeze_unit,
  start_application as start_application_call,
}
use ghaf_givc.Admin.Server.Client.{
  unit_call, get_remote_status, start_remote, stop_remote, pause_remote, resume_remote,
  start_application,
}
use ghaf_givc.Admin.Server.Endpoints.{host_endpoint, agent_endpoint, app_entries}
use ghaf_givc.Admin.Server.Units.{
  start_vm, launch, is_active, is_loaded, start_loaded, start_unit_on_vm, stop_unit_on_vm,
  send_system_command, unit_status_of, vm_startup_time,
}
use ghaf_givc.Admin.Server.Apps.{
  ApplicationRequest, app_vm_name, app_entry, unique_name, ensure_agent, register_active, start_app,
  for_entries, on_entries, pause_application, resume_application, stop_application,
}
use ghaf_givc.Admin.Server.Runs.{Keeps, >>=-Keeps, match_result-Keeps, if-Keeps}
use ghaf_givc.Admin.Server.Placed.{IsPlaced, register-IsServed}
use ghaf_givc.Admin.Server.Frame.{IsOrderly, IsFair, pause_for-Orderly, unit_call-Orderly}

abbrev pub AnyCall : Call → Type 0
AnyCall call = Unit

module _ (env : Env) (fair : IsFair env) (base : List Call) where
  abbrev pub Orderly : {A : Type 0} → Action A → Type 0
  Orderly m = Keeps (IsOrderly AnyCall base) m

  abbrev pub then_Orderly :
      {A B : Type 0} (m : Action A) (k : A → Action B)
      → Orderly m
      → ((a : A) → Orderly (k a))
      → Orderly (m >>= k)
  then_Orderly m k hm hk = >>=-Keeps (IsOrderly AnyCall base) m k hm hk

  query-Orderly : (ec : EndpointConfig) (call : Call) → Orderly (unit_call env ec call)
  query-Orderly ec call = unit_call-Orderly env fair AnyCall base ec call tt tt

  launch-Orderly : (ec : EndpointConfig) (name : Text) → Orderly (launch env ec name)
  unfolding launch start_remote get_remote_status
  launch-Orderly ec name =
      then_Orderly (start_remote env ec name) _ (query-Orderly ec (start_unit ec name)) (λ _.
        then_Orderly (pause_for env vm_startup_time) _
          (pause_for-Orderly env fair AnyCall base vm_startup_time tt)
          (λ _.
            then_Orderly (get_remote_status env ec name) _
              (query-Orderly ec (get_unit_status ec name)) (λ status w s. s)))

  pub start_vm-Orderly : (name : Text) → Orderly (start_vm env name)
  unfolding start_vm get_remote_status
  start_vm-Orderly name =
      then_Orderly (gets host_endpoint) _ (λ w s. s)
        (λ ec.
          then_Orderly (get_remote_status env ec name) _
            (query-Orderly ec (get_unit_status ec name))
            (λ status.
              then_Orderly (lift (ensure (is_loaded status) vm_not_loaded)) _ (λ w s. s)
                (λ _.
                  if-Keeps (IsOrderly AnyCall base) (is_active status) (pure tt)
                    (launch env ec name) (λ w s. s) (launch-Orderly ec name))))

  pub send_system_command-Orderly : (name : Text) → Orderly (send_system_command env name)
  unfolding send_system_command start_remote
  send_system_command-Orderly name =
      then_Orderly (gets host_endpoint) _ (λ w s. s)
        (λ ec.
          then_Orderly (start_remote env ec name) _ (query-Orderly ec (start_unit ec name))
            (λ _ w s. s))

  start_loaded-Orderly :
      (ec : EndpointConfig) (unit : Text) (status : UnitStatus)
      → Orderly (start_loaded env ec unit status)
  unfolding start_remote
  start_loaded-Orderly ec unit status =
      if-Keeps (IsOrderly AnyCall base) (is_active status && (status.sub_state == codes "running"))
        (pure tt) (start_remote env ec unit >> pure tt) (λ w s. s)
        (then_Orderly (start_remote env ec unit) _ (query-Orderly ec (start_unit ec unit))
          (λ _ w s. s))

  pub start_unit_on_vm-Orderly : (unit vmname : Text) → Orderly (start_unit_on_vm env unit vmname)
  unfolding start_unit_on_vm get_remote_status
  start_unit_on_vm-Orderly unit vmname =
      then_Orderly (gets (agent_endpoint (agent_service (vm vmname)))) _ (λ w s. s)
        (λ ec.
          then_Orderly (get_remote_status env ec unit) _
            (query-Orderly ec (get_unit_status ec unit))
            (λ status.
              then_Orderly (lift (ensure (is_loaded status) unit_not_loaded)) _ (λ w s. s)
                (λ _.
                  then_Orderly (start_loaded env ec unit status) _
                    (start_loaded-Orderly ec unit status) (λ _ w s. s))))

  pub stop_unit_on_vm-Orderly : (unit vmname : Text) → Orderly (stop_unit_on_vm env unit vmname)
  unfolding stop_unit_on_vm stop_remote
  stop_unit_on_vm-Orderly unit vmname =
      then_Orderly (gets (agent_endpoint (agent_service (vm vmname)))) _ (λ w s. s)
        (λ ec.
          then_Orderly (stop_remote env ec unit) _ (query-Orderly ec (stop_unit ec unit))
            (λ status w s. s))

  pub unit_status_of-Orderly :
      (vm_service unit_name : Text) → Orderly (unit_status_of env vm_service unit_name)
  unfolding unit_status_of get_remote_status
  unit_status_of-Orderly vm_service unit_name =
      then_Orderly (gets (agent_endpoint vm_service)) _ (λ w s. s)
        (λ ec.
          then_Orderly (get_remote_status env ec unit_name) _
            (query-Orderly ec (get_unit_status ec unit_name)) (λ status w s. s))

  ensure_agent-Orderly : (machine : VmName) → Orderly (ensure_agent env machine)
  unfolding ensure_agent
  ensure_agent-Orderly machine =
      match_result-Keeps (IsOrderly AnyCall base)
        (gets (λ s. by_name (agent_service machine) s.registry)) _ _ (λ w s. s)
        (then_Orderly (start_vm env (vm_service machine)) _ (start_vm-Orderly (vm_service machine))
          (λ _.
            then_Orderly (gets (λ s. by_name (agent_service machine) s.registry)) _ (λ w s. s)
              (λ _ w s. s)))
        (λ _ w s. s)

  pub registering-Orderly :
      (e : RegistryEntry) → IsPlaced e → Orderly (change (λ reg. ok (register e reg)))
  registering-Orderly e h w s = record {
    served = register-IsServed e w.service.registry h s.served;
    tasks = s.tasks;
    since = s.since;
  }

  register_active-Orderly :
      (machine : VmName) (status : UnitStatus) → Orderly (register_active env machine status)
  register_active-Orderly machine status =
      if-Keeps (IsOrderly AnyCall base) (is_active status)
        (change (λ reg. ok (register (app_entry machine status) reg))) (pure tt)
        (registering-Orderly (app_entry machine status) refl) (λ w s. s)

  pub start_app-Orderly : (req : ApplicationRequest) → Orderly (start_app env req)
  unfolding start_app start_application
  start_app-Orderly req =
      let machine = app_vm_name req in
      then_Orderly (ensure_agent env machine) _ (ensure_agent-Orderly machine) (λ _.
        then_Orderly (gets (agent_endpoint (agent_service machine))) _ (λ w s. s)
          (λ ec.
            then_Orderly (gets (λ s. unique_name req.app_name s.registry)) _ (λ w s. s)
              (λ app_name.
                then_Orderly (start_application env ec app_name req.args) _
                  (query-Orderly ec (start_application_call ec app_name req.args))
                  (λ status.
                    then_Orderly (register_active env machine status) _
                      (register_active-Orderly machine status) (λ _ w s. s)))))

  for_entries-Orderly :
      (call : EndpointConfig → Text → Action UnitStatus)
      → ((ec : EndpointConfig) (unit : Text) → Orderly (call ec unit))
      → (test : UnitStatus → Bool) (failed : Error) (ec : EndpointConfig) (names : List Text)
      → Orderly (for_entries env call test failed ec names)
  unfolding for_entries
  for_entries-Orderly call h test failed ec [] = λ w s. s
  for_entries-Orderly call h test failed ec (each ∷ rest) =
      then_Orderly (call ec each) _ (h ec each) (λ status.
        then_Orderly (lift (ensure (test status) failed)) _ (λ w s. s)
          (λ _. for_entries-Orderly call h test failed ec rest))

  on_entries-Orderly :
      (call : EndpointConfig → Text → Action UnitStatus)
      → ((ec : EndpointConfig) (unit : Text) → Orderly (call ec unit))
      → (test : UnitStatus → Bool) (failed : Error) (req : ApplicationRequest)
      → Orderly (on_entries env call test failed req)
  on_entries-Orderly call h test failed req =
      then_Orderly (gets (agent_endpoint req.app_name)) _ (λ w s. s)
        (λ ec.
          then_Orderly (gets (app_entries req.app_name)) _ (λ w s. s)
            (λ entries. for_entries-Orderly call h test failed ec entries))

  pub pause_application-Orderly : (req : ApplicationRequest) → Orderly (pause_application env req)
  unfolding pause_application pause_remote
  pause_application-Orderly req =
      on_entries-Orderly (pause_remote env) (λ ec unit. query-Orderly ec (freeze_unit ec unit))
        is_paused failed_to_pause req

  pub resume_application-Orderly : (req : ApplicationRequest) → Orderly (resume_application env req)
  unfolding resume_application resume_remote
  resume_application-Orderly req =
      on_entries-Orderly (resume_remote env) (λ ec unit. query-Orderly ec (unfreeze_unit ec unit))
        is_running failed_to_resume req

  pub stop_application-Orderly : (req : ApplicationRequest) → Orderly (stop_application env req)
  unfolding stop_application stop_remote
  stop_application-Orderly req =
      on_entries-Orderly (stop_remote env) (λ ec unit. query-Orderly ec (stop_unit ec unit))
        is_exitted failed_to_stop req
