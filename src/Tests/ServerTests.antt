-- ===== src/Tests/ServerTests.antt =====
-- crates/admin/src/admin/server.rs: a host whose machine is off, an agent and its application.
use ghaf_givc.Prelude.{
  ℕ, ◌≡◌, refl, Bool, true, false, none, some, List, [], ◌∷◌, ◌++◌, if◌then◌else◌, list_beq,
  list_eq, option_eq, nat_eq, All, any, find, filter_by, Result, ok, err, map_result,
  not_registered, rpc_failed,
}
use ghaf_givc.Text.{
  Text, codes, full_match, full_match-Matches, strip_prefix, contains, decimal, nullable,
  after_char,
}
use ghaf_givc.Admin.Types.{
  host, app_vm, mgr, app, UnitStatus, UnitStatusMessage, unit_status_from, is_exitted, tcp,
  EndpointEntry,
}
use ghaf_givc.Admin.Naming.{vm, agent_service, vm_service, vm_name_text}
use ghaf_givc.Admin.Entry.{RegistryEntry, RegistryRequest, endpoint_of, managed, entry_from, agent}
use ghaf_givc.Admin.Registry.{
  Registry, new, register, by_name, by_type, by_type_many, get, insert, remove, find_names,
  create_unique_entry_name, unique_from, with_status, subscribe,
}
use ghaf_givc.Admin.Registry.Invariant.{start, then_step, registers as registers_step}
use ghaf_givc.Admin.Registry.Views.{view_of, replay}
use ghaf_givc.Policy.Refresh.{Store}
use ghaf_givc.Admin.Server.World.{
  Call, get_unit_status, start_unit, stop_unit, Env, World, UnitResponse, EndpointConfig,
  LocaleAssignment, open_channel, ask_unit, pause_for, write_locale_conf,
}
use ghaf_givc.Admin.Server.Client.{
  unit_call, status_response, get_remote_status, start_remote, stop_remote,
  start_application as start_application_remote,
}
use ghaf_givc.Admin.Server.Endpoints.{
  transport_of, endpoint, host_endpoint, agent_endpoint, app_entries,
}
use ghaf_givc.Admin.Server.Units.{start_vm, launch, entry_status, start_unit_on_vm}
use ghaf_givc.Admin.Server.Monitor.{monitor, monitor_routine}
use ghaf_givc.Admin.Server.Apps.{
  ApplicationRequest, start_app, ensure_agent, stop_application, for_entries, app_vm_name,
}
use ghaf_givc.Admin.Server.Locale.{
  set_locale, set_timezone, validate_locale, check_value, check_values, locale_line, key_from,
  new as new_service,
}
use ghaf_givc.Admin.Server.Handlers.{register_service}
use ghaf_givc.Admin.Server.Placed.{IsServed}
use ghaf_givc.Admin.Server.Invariant.{
  started, Runs, begin, act, registers, IsQuery, Runs-IsServed, monitor_starts_nothing,
}
use ghaf_givc.Admin.Server.Machines.{StartsVm, start_vm_sound}
use ghaf_givc.Admin.Server.Launch.{AppStarted, start_app_sound}
use ghaf_givc.Admin.Server.Loops.{ToldAll, on_application_sound}
use ghaf_givc.Admin.Server.Restart.{set_locale-new}
use ghaf_givc.Admin.Server.Recovery.{exitted_app_is_dropped}
use ghaf_givc.Admin.Server.Register.{RegisterDoes, register_service_sound}
use ghaf_givc.Admin.Server.Services.{StartsUnit, start_unit_on_vm_sound}
use ghaf_givc.Admin.Server.Watch.{now, advance, received, listed, watch-view_of}

abbrev message : Text → Text → UnitStatusMessage
message active_state sub_state = record {
  name = codes "browser@0.service";
  description = codes "A unit";
  load_state = codes "loaded";
  active_state = active_state;
  sub_state = sub_state;
  path = codes "/";
  freezer_state = codes "running";
}

abbrev respond : Text → Text → Result UnitResponse
respond active_state sub_state = ok (record { unit_status = some (message active_state sub_state) })

-- A start was asked for.
abbrev was_started : List Call → Bool
was_started [] = false
was_started (start_unit ec unit ∷ calls) = true
was_started (_ ∷ calls) = was_started calls

-- Units are off until a start is asked for, and off again after a stop.
abbrev respond_to : List Call → Call → Result UnitResponse
respond_to calls (get_unit_status ec unit) =
    if was_started calls
    then respond (codes "active") (codes "running")
    else respond (codes "inactive") (codes "dead")
respond_to calls (stop_unit ec unit) = respond (codes "inactive") (codes "dead")
respond_to calls call = respond (codes "active") (codes "running")

abbrev env : Env
env = record {
  connects = λ calls ec. ok tt;
  units = respond_to;
  replies = λ calls call. err rpc_failed;
  stored = λ calls old content. some content;
  meanwhile = λ calls reg. reg;
}

abbrev store : Store
store = record { exists = λ path. false; read_dir = λ path. none; is_file = λ path. false }

abbrev request : Text → Text → ℕ → RegistryRequest
request name parent unit_type = record {
  name = name;
  parent = parent;
  unit_type = unit_type;
  transport =
      some
        (record { protocol = codes "unix"; address = codes "/run/agent"; port = []; name = name });
  state = some (message (codes "active") (codes "running"));
}

abbrev host_request : RegistryRequest
host_request = request (codes "givc-ghaf-host.service") [] 0

abbrev agent_request : RegistryRequest
agent_request = request (codes "givc-chrome-vm.service") (codes "microvm@chrome-vm.service") 12

abbrev first_world : World
first_world = started none none none none

abbrev host_world : World
host_world = (register_service env host_request first_world).1

abbrev agent_world : World
agent_world = (register_service env agent_request host_world).1

agent_world-Runs : Runs env store full_match first_world agent_world
agent_world-Runs = act (act begin (registers host_request)) (registers agent_request)

Runs-IsServed_example : IsServed agent_world.service.registry
Runs-IsServed_example =
    Runs-IsServed env store full_match none none none none agent_world (λ calls reg h. h)
      agent_world-Runs

monitor_starts_nothing_example :
    (made : List Call) × ((monitor env agent_world).1.calls ≡ agent_world.calls ++ made)
    × All IsQuery made
monitor_starts_nothing_example =
    monitor_starts_nothing env store full_match none none none none agent_world (λ calls reg h. h)
      agent_world-Runs

abbrev transport : EndpointEntry
transport = record { address = tcp (codes "10.0.0.1") 9001; tls_name = codes "agent" }

abbrev status : Text → Text → UnitStatus
status active_state sub_state = record {
  name = codes "browser@0.service";
  description = codes "A unit";
  load_state = codes "loaded";
  active_state = active_state;
  sub_state = sub_state;
  path = codes "/";
  freezer_state = codes "running";
}

abbrev host_entry : RegistryEntry
host_entry = record {
  name = codes "givc-ghaf-host.service";
  unit_type = record { vm = host; service = mgr };
  status = status (codes "active") (codes "running");
  placement = endpoint_of transport [];
  watch = true;
}

abbrev agent_entry : RegistryEntry
agent_entry = record {
  name = codes "givc-chrome-vm.service";
  unit_type = record { vm = app_vm; service = mgr };
  status = status (codes "active") (codes "running");
  placement = endpoint_of transport (codes "chrome-vm");
  watch = true;
}

abbrev browser_entry : RegistryEntry
browser_entry = record {
  name = codes "browser@0.service";
  unit_type = record { vm = app_vm; service = app };
  status = status (codes "active") (codes "running");
  placement = managed (codes "microvm@chrome-vm.service") (codes "givc-chrome-vm.service");
  watch = true;
}

abbrev with_entries : Registry → World
with_entries reg = record first_world { service = record first_world.service { registry = reg } }

abbrev host_only : World
host_only = with_entries (register host_entry new)

abbrev agent_too : World
agent_too = with_entries (register agent_entry (register host_entry new))

abbrev app_too : World
app_too = with_entries (register browser_entry (register agent_entry (register host_entry new)))

abbrev machine : Text
machine = codes "microvm@chrome-vm.service"

start_vm_sound_example : StartsVm env machine host_only (start_vm env machine host_only).1
unfolding started new_service start_vm launch host_endpoint by_type by_type_many filter_by
    get_remote_status start_remote pause_for new register insert remove get by_name endpoint
    transport_of agent_service vm_name_text vm_service list_beq status_response unit_call ask_unit
    open_channel unit_status_from
start_vm_sound_example =
    start_vm_sound env machine host_only (start_vm env machine host_only).1 refl

abbrev app_request : ApplicationRequest
app_request = record { app_name = codes "browser"; vm_name = some (codes "chrome-vm"); args = [] }

start_app_sound_example :
    AppStarted env app_request agent_too
      (start_app env app_request agent_too).1
      (codes "browser@0.service")
unfolding started new_service start_app ensure_agent app_vm_name create_unique_entry_name
    unique_from contains decimal agent_endpoint start_application_remote new register insert remove
    get by_name endpoint transport_of agent_service vm_name_text vm_service list_beq status_response
    unit_call ask_unit open_channel unit_status_from
start_app_sound_example =
    start_app_sound env app_request agent_too (start_app env app_request agent_too).1
      (codes "browser@0.service") refl

abbrev stop_request : ApplicationRequest
stop_request = record { app_name = codes "browser@0.service"; vm_name = none; args = [] }

on_application_sound_example :
    ToldAll env stop_unit is_exitted
      (codes "browser@0.service")
      app_too
      (stop_application env stop_request app_too).1
unfolding started new_service stop_application for_entries app_entries any find_names filter_by
    strip_prefix is_exitted agent_endpoint agent stop_remote new register insert remove get by_name
    endpoint transport_of agent_service vm_name_text vm_service list_beq status_response unit_call
    ask_unit open_channel unit_status_from
on_application_sound_example =
    (on_application_sound env stop_request app_too (stop_application env stop_request app_too).1).0
      refl

exitted_app_is_dropped_example :
    (by_name
        (codes "browser@0.service")
        (monitor_routine env browser_entry app_too).1.service.registry
      ≡ ok (with_status (status (codes "inactive") (codes "dead")) browser_entry))
    × (by_name
          (codes "browser@0.service")
          (monitor_routine env
            (with_status (status (codes "inactive") (codes "dead")) browser_entry)
            app_too).1.service.registry
        ≡ err not_registered)
unfolding started new_service entry_status get_remote_status is_exitted agent new register insert
    remove get by_name endpoint transport_of agent_service vm_name_text vm_service list_beq
    status_response unit_call ask_unit open_channel unit_status_from
exitted_app_is_dropped_example =
    exitted_app_is_dropped env browser_entry (status (codes "inactive") (codes "dead")) app_too
      (entry_status env browser_entry app_too).1 app_too (entry_status env browser_entry app_too).1
      (ok (status (codes "inactive") (codes "dead"))) browser_entry refl refl refl refl refl refl
      refl
      (then_step
        (then_step (then_step start (registers_step host_entry)) (registers_step agent_entry))
        (registers_step browser_entry))
      refl

-- The agent registers between the creation of the receiver and the reading of the contents.
watch-view_of_example :
    let both = register browser_entry (register agent_entry new) in
    replay
      (received new (register agent_entry new) both)
      (listed (subscribe new (register agent_entry new)).0)
      (codes "browser@0.service")
    ≡ view_of both (codes "browser@0.service")
watch-view_of_example =
    watch-view_of new (register agent_entry new) (register browser_entry (register agent_entry new))
      (codes "browser@0.service") start (advance now (registers_step agent_entry))
      (advance now (registers_step browser_entry))

abbrev assignments : List LocaleAssignment
assignments =
    record { key = 0; value = codes "en_US.UTF-8" }
    ∷ record { key = 12; value = codes "fi_FI@euro" }
    ∷ []

abbrev locale_world : World
locale_world = (set_locale full_match env assignments first_world).1

set_locale-new_example :
    (locale_world.service.locale_assigns ≡ assignments)
    × ((new_service none none locale_world.locale_conf locale_world.timezone_conf).locale_assigns
        ≡ assignments)
unfolding started new_service new set_locale check_values check_value list_beq validate_locale
    full_match nullable after_char map_result locale_line key_from find write_locale_conf
set_locale-new_example =
    set_locale-new env full_match assignments first_world locale_world none none full_match-Matches
      (λ calls old content. refl) refl

abbrev timezone_world : World
timezone_world = (set_timezone full_match env (codes "Europe/Helsinki") first_world).1

register_service_sound_example :
    RegisterDoes agent_request host_world
      (entry_from agent_request)
      (register_service env agent_request host_world)
register_service_sound_example = register_service_sound env agent_request host_world

start_unit_on_vm_sound_example :
    (codes "givc-chrome-vm.service" ≡ agent_service (vm (codes "chrome-vm")))
    × (ec : EndpointConfig) × (agent_endpoint
          (agent_service (vm (codes "chrome-vm")))
          agent_too.service
        ≡ ok ec)
    × StartsUnit env
        (codes "foo.service")
        ec
        agent_too
        (start_unit_on_vm env (codes "foo.service") (codes "chrome-vm") agent_too).1
unfolding started new_service start_unit_on_vm get_remote_status start_remote agent_endpoint new
    register insert remove get by_name endpoint transport_of agent_service vm_name_text vm_service
    list_beq status_response unit_call ask_unit open_channel unit_status_from
start_unit_on_vm_sound_example =
    start_unit_on_vm_sound env (codes "foo.service") (codes "chrome-vm") agent_too
      (start_unit_on_vm env (codes "foo.service") (codes "chrome-vm") agent_too).1
      (codes "givc-chrome-vm.service") refl
