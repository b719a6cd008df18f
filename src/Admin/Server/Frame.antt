-- ===== src/Admin/Server/Frame.antt =====
-- crates/admin/src/admin/server.rs: the registry, the calls and the tasks that the actions of the
-- server leave behind.
use ghaf_givc.Prelude.{
  ℕ, ◌≡◌, refl, ap, ◌∙◌, ◌≢◌, not, ◌||◌, List, [], ◌∷◌, ◌++◌, list_eq, option_eq, nat_eq, All,
  Result, ok, err, panic,
}
use mathlib.Core.List.{append_assoc}
use ghaf_givc.Text.{Text}
use ghaf_givc.Admin.Types.{
  UnitType, UnitStatus, VmType, sys_vm, app_vm, ServiceType, mgr, app, is_valid, is_exitted,
}
use ghaf_givc.Admin.Entry.{RegistryEntry, Placement, endpoint_of, managed, on_host}
use ghaf_givc.Admin.Registry.{Registry, deregister, update_state, watch_list}
use ghaf_givc.Admin.Server.World.{
  Env, World, Action, pure, gets, change, change_to, spawn, Spawned, monitor_entry, greet,
  send_locale, send_timezone, EndpointConfig, Call, connect, get_unit_status, sleep, after_call,
  open_channel, ask_unit, ask, pause_for,
}
use ghaf_givc.Admin.Server.Client.{unit_call, get_remote_status}
use ghaf_givc.Admin.Server.Endpoints.{endpoint}
use ghaf_givc.Admin.Server.Units.{entry_status, is_active}
use ghaf_givc.Admin.Server.Monitor.{
  restart_machine, handle_error_of, save_and_recover, handle_error, monitor_routine,
  monitor_entries, monitor,
}
use ghaf_givc.Admin.Server.Runs.{Keeps, >>=-Keeps, match_result-Keeps, if-Keeps}
use ghaf_givc.Admin.Server.Placed.{
  IsPlaced, PlacedAs, IsServed, deregister-IsServed, update_state-IsServed, watch_list-IsPlaced,
}

abbrev pub IsPlacedTask : Spawned → Type 0
IsPlacedTask (monitor_entry e) = IsPlaced e
IsPlacedTask (greet ec assigns timezone) = Unit
IsPlacedTask (send_locale agents assigns) = Unit
IsPlacedTask (send_timezone agents timezone) = Unit

-- The registry and the tasks are as they should be, and since the first calls, the base, only
-- allowed calls were made.
pub record IsOrderly (allowed : Call → Type 0) (base : List Call) (w : World) : Type 0 where
  pub served : IsServed w.service.registry
  pub tasks : All IsPlacedTask w.spawned
  pub since : (cs : List Call) × (w.calls ≡ base ++ cs) × All allowed cs

-- What the other tasks do meanwhile keeps the registry as it should be.
abbrev pub IsFair : Env → Type 0
IsFair env =
    (calls : List Call) (reg : Registry) → IsServed reg → IsServed (env.meanwhile calls reg)

All-snoc :
    {A : Type 0} (P : A → Type 0) (xs : List A) (x : A) → All P xs → P x → All P (xs ++ (x ∷ []))
All-snoc P [] x h hx = (hx, tt)
All-snoc P (y ∷ xs) x h hx = (h.0, All-snoc P xs x h.1 hx)

module _ (env : Env) (fair : IsFair env) (allowed : Call → Type 0) (base : List Call) where
  abbrev pub Orderly : {A : Type 0} → Action A → Type 0
  Orderly m = Keeps (IsOrderly allowed base) m

  pub after_call-IsOrderly :
      (call : Call)
      → allowed call
      → (w : World) → IsOrderly allowed base w
      → IsOrderly allowed base (after_call env call w)
  after_call-IsOrderly call h w s =
      let (cs, e, a) = s.since in
      record {
        served = fair w.calls w.service.registry s.served;
        tasks = s.tasks;
        since = (
          cs ++ (call ∷ []),
          ap (λ l. l ++ (call ∷ [])) e ∙ append_assoc base cs (call ∷ []),
          All-snoc allowed cs call a h,
        );
      }

  pub open_channel-Orderly :
      (ec : EndpointConfig) → allowed (connect ec) → Orderly (open_channel env ec)
  unfolding open_channel
  open_channel-Orderly ec h w s = after_call-IsOrderly (connect ec) h w s

  pub ask-Orderly : (call : Call) → allowed call → Orderly (ask env call)
  unfolding ask
  ask-Orderly call h w s = after_call-IsOrderly call h w s

  pub pause_for-Orderly : (seconds : ℕ) → allowed (sleep seconds) → Orderly (pause_for env seconds)
  unfolding pause_for
  pause_for-Orderly seconds h w s = after_call-IsOrderly (sleep seconds) h w s

  pub unit_call-Orderly :
      (ec : EndpointConfig) (call : Call)
      → allowed (connect ec)
      → allowed call
      → Orderly (unit_call env ec call)
  unfolding unit_call ask_unit
  unit_call-Orderly ec call hc h =
      >>=-Keeps (IsOrderly allowed base) (open_channel env ec) _ (open_channel-Orderly ec hc) (λ _.
        >>=-Keeps (IsOrderly allowed base) (ask_unit env call) _
          (λ w s. after_call-IsOrderly call h w s) (λ response w s. s))

  pub change-Orderly :
      (f : Registry → Result Registry)
      → ((reg next_reg : Registry) → f reg ≡ ok next_reg → IsServed reg → IsServed next_reg)
      → Orderly (change f)
  change-Orderly f h w s = split (f w.service.registry) refl
    where
      split :
          (r : Result Registry)
          → f w.service.registry ≡ r
          → IsOrderly allowed base (change_to r w).1
      split (ok reg) e = record {
        served = h w.service.registry reg e s.served;
        tasks = s.tasks;
        since = s.since;
      }
      split (err why) e = s
      split panic e = s

  pub spawn-Orderly : (task : Spawned) → IsPlacedTask task → Orderly (spawn task)
  spawn-Orderly task h w s = record {
    served = s.served;
    tasks = All-snoc IsPlacedTask w.spawned task s.tasks h;
    since = s.since;
  }

  restart-Orderly :
      (ty : UnitType) (p : Placement)
      → PlacedAs ty p
      → ty ≢ record { vm = app_vm; service = app }
      → Orderly (restart_machine env p)
  restart-Orderly ty (endpoint_of transport machine) h n w s = s
  restart-Orderly ty (managed machine parent) h n w s = absurd (n h)
  restart-Orderly ty on_host h n w s = s

  handle_error_of-Orderly :
      (machine : VmType) (service : ServiceType) (entry : RegistryEntry)
      → PlacedAs (record { vm = machine; service = service }) entry.placement
      → Orderly (handle_error_of env machine service entry)
  handle_error_of-Orderly app_vm app entry h =
      if-Keeps (IsOrderly allowed base) (is_exitted entry.status) (change (deregister entry.name))
        (pure tt)
        (change-Orderly (deregister entry.name)
          (λ reg next_reg. deregister-IsServed entry.name reg))
        (λ w s. s)
  handle_error_of-Orderly app_vm mgr entry h =
      restart-Orderly _ entry.placement h (λ e. cc (ap (λ t. t.service) e))
  handle_error_of-Orderly sys_vm mgr entry h =
      restart-Orderly _ entry.placement h (λ e. cc (ap (λ t. t.service) e))
  handle_error_of-Orderly _ _ entry h = λ w s. s

  -- An entry that is placed as it should be has no machine to restart.
  pub handle_error-Orderly :
      (entry : RegistryEntry) → IsPlaced entry → Orderly (handle_error env entry)
  unfolding handle_error
  handle_error-Orderly entry h =
      handle_error_of-Orderly entry.unit_type.vm entry.unit_type.service entry h

  module _ (query : (ec : EndpointConfig) → allowed (connect ec))
      (status_query : (ec : EndpointConfig) (unit : Text) → allowed (get_unit_status ec unit)) where
    pub get_remote_status-Orderly :
        (ec : EndpointConfig) (unit : Text) → Orderly (get_remote_status env ec unit)
    unfolding get_remote_status
    get_remote_status-Orderly ec unit =
        unit_call-Orderly ec (get_unit_status ec unit) (query ec) (status_query ec unit)

    save_and_recover-Orderly :
        (entry : RegistryEntry) (status : UnitStatus)
        → IsPlaced entry
        → Orderly (save_and_recover env entry status)
    save_and_recover-Orderly entry status h =
        >>=-Keeps (IsOrderly allowed base) (change (update_state entry.name status)) _
          (change-Orderly (update_state entry.name status)
            (λ reg next_reg. update_state-IsServed entry.name status reg))
          (λ _.
            if-Keeps (IsOrderly allowed base) (not (is_valid status) || not (is_active status))
              (handle_error env entry) (pure tt) (handle_error-Orderly entry h) (λ w s. s))

    pub monitor_routine-Orderly :
        (entry : RegistryEntry) → IsPlaced entry → Orderly (monitor_routine env entry)
    unfolding monitor_routine entry_status
    monitor_routine-Orderly entry h =
        match_result-Keeps (IsOrderly allowed base) (entry_status env entry)
          (handle_error env entry) _
          (>>=-Keeps (IsOrderly allowed base) (gets (endpoint entry)) _ (λ w s. s)
            (λ ec. get_remote_status-Orderly ec entry.name))
          (handle_error-Orderly entry h) (λ status. save_and_recover-Orderly entry status h)

    monitor_entries-Orderly :
        (es : List RegistryEntry) → All IsPlaced es → Orderly (monitor_entries env es)
    unfolding monitor_entries
    monitor_entries-Orderly [] h = λ w s. s
    monitor_entries-Orderly (e ∷ es) h =
        match_result-Keeps (IsOrderly allowed base) (monitor_routine env e) (monitor_entries env es)
          _ (monitor_routine-Orderly e h.0) (monitor_entries-Orderly es h.1)
          (λ _. monitor_entries-Orderly es h.1)

    pub monitor-Orderly : Orderly (monitor env)
    unfolding monitor
    monitor-Orderly w s =
        monitor_entries-Orderly (watch_list w.service.registry)
          (watch_list-IsPlaced w.service.registry s.served.placed) w s
