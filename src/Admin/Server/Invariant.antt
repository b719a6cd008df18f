-- ===== src/Admin/Server/Invariant.antt =====
-- crates/admin/src/admin/server.rs: the server as a machine whose steps are its requests, the ticks
-- of its monitor and the tasks that it has started.
use ghaf_givc.Prelude.{
  ◌≡◌, refl, sym, subst, inl, inr, Bool, Option, List, [], ◌∷◌, ◌++◌, list_eq, option_eq, nat_eq,
  All, Member,
}
use mathlib.Core.List.{append-nil}
use ghaf_givc.Text.{Text, Pattern}
use ghaf_givc.Admin.Entry.{RegistryRequest}
use ghaf_givc.Policy.{PolicyManager}
use ghaf_givc.Policy.Refresh.{Store}
use ghaf_givc.Admin.Server.World.{
  Env, World, Spawned, Call, connect, get_unit_status, LocaleAssignment, TlsConfig,
}
use ghaf_givc.Admin.Server.Units.{
  start_vm, start_unit_on_vm, stop_unit_on_vm, send_system_command, unit_status_of,
}
use ghaf_givc.Admin.Server.Monitor.{monitor}
use ghaf_givc.Admin.Server.Apps.{
  ApplicationRequest, start_app, pause_application, resume_application, stop_application,
}
use ghaf_givc.Admin.Server.Locale.{new, set_locale, set_timezone}
use ghaf_givc.Admin.Server.Handlers.{register_service, run_spawned}
use ghaf_givc.Admin.Server.Placed.{IsServed, new-IsServed}
use ghaf_givc.Admin.Server.Frame.{IsOrderly, IsFair, IsPlacedTask, monitor-Orderly}
use ghaf_givc.Admin.Server.Orderly.{
  AnyCall, start_vm-Orderly, send_system_command-Orderly, start_unit_on_vm-Orderly,
  stop_unit_on_vm-Orderly, unit_status_of-Orderly, start_app-Orderly, pause_application-Orderly,
  resume_application-Orderly, stop_application-Orderly,
}
use ghaf_givc.Admin.Server.Requests.{
  register_service-Tidy, run_spawned-Tidy, set_locale-Tidy, set_timezone-Tidy,
}

-- A server that has just started, on what its files hold.
unfoldable pub started : Option TlsConfig → Option PolicyManager → Option Text → Option Text → World
started use_tls policy_manager locale_conf timezone_conf = record {
  service = new use_tls policy_manager locale_conf timezone_conf;
  calls = [];
  locale_conf = locale_conf;
  timezone_conf = timezone_conf;
  spawned = [];
}

module _ (env : Env) (store : Store) (is_match : Pattern → Text → Bool) where
  -- A request, a tick of the monitor, or a task.
  pub data Acts (w : World) : World → Type 0 where
    registers : (req : RegistryRequest) → Acts w (register_service env req w).1
    starts_app : (req : ApplicationRequest) → Acts w (start_app env req w).1
    pauses : (req : ApplicationRequest) → Acts w (pause_application env req w).1
    resumes : (req : ApplicationRequest) → Acts w (resume_application env req w).1
    stops : (req : ApplicationRequest) → Acts w (stop_application env req w).1
    starts_vm : (name : Text) → Acts w (start_vm env name w).1
    starts_unit : (unit vmname : Text) → Acts w (start_unit_on_vm env unit vmname w).1
    stops_unit : (unit vmname : Text) → Acts w (stop_unit_on_vm env unit vmname w).1
    commands : (name : Text) → Acts w (send_system_command env name w).1
    asks : (vm_service unit : Text) → Acts w (unit_status_of env vm_service unit w).1
    sets_locale : (assigns : List LocaleAssignment) → Acts w (set_locale is_match env assigns w).1
    sets_timezone : (timezone : Text) → Acts w (set_timezone is_match env timezone w).1
    ticks : Acts w (monitor env w).1
    runs : (task : Spawned) → Member task w.spawned → Acts w (run_spawned env store task w).1

  pub data Runs (first : World) : World → Type 0 where
    begin : Runs first first
    act : {w v : World} → Runs first w → Acts w v → Runs first v

  module _ (fair : IsFair env) where
    Member-All :
        (task : Spawned) (tasks : List Spawned)
        → Member task tasks
        → All IsPlacedTask tasks
        → IsPlacedTask task
    Member-All task [] m h = elim m [ ]
    Member-All task (t ∷ ts) (inl e) h = subst IsPlacedTask e h.0
    Member-All task (t ∷ ts) (inr m) h = Member-All task ts m h.1

    Acts-IsOrderly :
        (base : List Call) {w v : World}
        → Acts w v
        → IsOrderly AnyCall base w
        → IsOrderly AnyCall base v
    Acts-IsOrderly base {w} (registers req) s = register_service-Tidy env fair base req w s
    Acts-IsOrderly base {w} (starts_app req) s = start_app-Orderly env fair base req w s
    Acts-IsOrderly base {w} (pauses req) s = pause_application-Orderly env fair base req w s
    Acts-IsOrderly base {w} (resumes req) s = resume_application-Orderly env fair base req w s
    Acts-IsOrderly base {w} (stops req) s = stop_application-Orderly env fair base req w s
    Acts-IsOrderly base {w} (starts_vm name) s = start_vm-Orderly env fair base name w s
    Acts-IsOrderly base {w} (starts_unit unit vmname) s =
        start_unit_on_vm-Orderly env fair base unit vmname w s
    Acts-IsOrderly base {w} (stops_unit unit vmname) s =
        stop_unit_on_vm-Orderly env fair base unit vmname w s
    Acts-IsOrderly base {w} (commands name) s = send_system_command-Orderly env fair base name w s
    Acts-IsOrderly base {w} (asks vm_service unit) s =
        unit_status_of-Orderly env fair base vm_service unit w s
    Acts-IsOrderly base {w} (sets_locale assigns) s =
        set_locale-Tidy env fair base is_match assigns w s
    Acts-IsOrderly base {w} (sets_timezone timezone) s =
        set_timezone-Tidy env fair base is_match timezone w s
    Acts-IsOrderly base {w} ticks s =
        monitor-Orderly env fair AnyCall base (λ ec. tt) (λ ec unit. tt) w s
    Acts-IsOrderly base {w} (runs task m) s =
        run_spawned-Tidy env fair base store task (Member-All task w.spawned m s.tasks) w s

    Runs-IsOrderly :
        (base : List Call) (first w : World)
        → IsOrderly AnyCall base first
        → Runs first w
        → IsOrderly AnyCall base w
    Runs-IsOrderly base first _ s begin = s
    Runs-IsOrderly base first _ s (act {w} r a) =
        Acts-IsOrderly base a (Runs-IsOrderly base first w s r)

module _ (use_tls : Option TlsConfig) (manager : Option PolicyManager)
    (locale_conf timezone_conf : Option Text) where
  started-IsOrderly : IsOrderly AnyCall [] (started use_tls manager locale_conf timezone_conf)
  unfolding started new
  started-IsOrderly = record { served = new-IsServed; tasks = tt; since = ([], refl, tt) }

-- Whatever requests the server has answered, and however its tasks, its monitor and the agents'
-- answers were interleaved, its registry is one that the registry's own operations reach, and only
-- applications in it are managed by an agent, as long as what happens during a call keeps this.
pub Runs-IsServed :
    (env : Env) (store : Store) (is_match : Pattern → Text → Bool) (use_tls : Option TlsConfig)
    (manager : Option PolicyManager) (locale_conf timezone_conf : Option Text) (w : World)
    → IsFair env
    → Runs env store is_match (started use_tls manager locale_conf timezone_conf) w
    → IsServed w.service.registry
unfolding started
Runs-IsServed env store is_match use_tls manager locale_conf timezone_conf w fair r =
    (Runs-IsOrderly env store is_match fair [] (started use_tls manager locale_conf timezone_conf) w
      (started-IsOrderly use_tls manager locale_conf timezone_conf) r).served

-- A call that starts nothing and changes nothing.
abbrev pub IsQuery : Call → Type 0
IsQuery (connect ec) = Unit
IsQuery (get_unit_status ec unit) = Unit
IsQuery _ = ⊥

-- In every state of the server that is reached, a round of the monitor only connects to agents and
-- asks them for statuses: it starts no machine, whatever they answer and whatever has failed, as long
-- as what happens during a call keeps the registry as it should be.
pub monitor_starts_nothing :
    (env : Env) (store : Store) (is_match : Pattern → Text → Bool) (use_tls : Option TlsConfig)
    (manager : Option PolicyManager) (locale_conf timezone_conf : Option Text) (w : World)
    → IsFair env
    → Runs env store is_match (started use_tls manager locale_conf timezone_conf) w
    → (made : List Call) × ((monitor env w).1.calls ≡ w.calls ++ made) × All IsQuery made
monitor_starts_nothing env store is_match use_tls manager locale_conf timezone_conf w fair r =
    let s : IsOrderly AnyCall [] w =
      Runs-IsOrderly env store is_match fair [] (started use_tls manager locale_conf timezone_conf)
        w (started-IsOrderly use_tls manager locale_conf timezone_conf) r in
    (monitor-Orderly env fair IsQuery w.calls (λ ec. tt) (λ ec unit. tt) w
      (record {
        served = s.served;
        tasks = s.tasks;
        since = ([], sym (append-nil w.calls), tt);
      })).since
