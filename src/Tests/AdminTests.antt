-- ===== src/Tests/AdminTests.antt =====
-- crates/admin and crates/common: a registry with one machine, its agent and an application.
use ghaf_givc.Prelude.{
  ◌≡◌, refl, ◌↔◌, true, none, some, list_beq, list_eq, option_eq, nat_eq, Result, ok, err, panic,
  context, not_registered,
}
use ghaf_givc.Text.{Text, codes}
use ghaf_givc.Admin.Types.{app_vm, mgr, app, UnitStatus, tcp, EndpointEntry}
use ghaf_givc.Admin.Entry.{RegistryEntry, RegistryRequest, endpoint_of, managed}
use ghaf_givc.Admin.Registry.{
  keys, Registry, new, register, deregister, update_state, by_name, get, remove, insert,
  create_unique_entry_name, depends_on,
}
use ghaf_givc.Admin.Registry.Invariant.{
  registers, deregisters, Reachable, start, then_step, IsConsistent, Reachable-IsConsistent,
}
use ghaf_givc.Admin.Registry.Effects.{GoesWith, left_by, deregister-by_name}
use ghaf_givc.Admin.Registry.Names.{IsUnused, create_unique_entry_name_total}
use ghaf_givc.Admin.Registry.Views.{replay, view_of}
use ghaf_givc.Admin.Registry.Replay.{replay-view_of}

abbrev endpoint : EndpointEntry
endpoint = record { address = tcp (codes "10.0.0.1") 9001; tls_name = codes "net-vm" }

abbrev status : UnitStatus
status = record {
  name = codes "app";
  description = codes "An application";
  load_state = codes "loaded";
  active_state = codes "active";
  sub_state = codes "running";
  path = codes "/";
  freezer_state = codes "running";
}

abbrev agent_entry : RegistryEntry
agent_entry = record {
  name = codes "givc-net-vm.service";
  unit_type = record { vm = app_vm; service = mgr };
  status = status;
  placement = endpoint_of endpoint (codes "net-vm");
  watch = true;
}

abbrev app_entry : RegistryEntry
app_entry = record {
  name = codes "browser@0.service";
  unit_type = record { vm = app_vm; service = app };
  status = status;
  placement = managed (codes "microvm@net-vm.service") (codes "givc-net-vm.service");
  watch = true;
}

abbrev request : RegistryRequest
request = record {
  name = codes "givc-net-vm.service";
  parent = codes "microvm@net-vm.service";
  unit_type = 12;
  transport = some (record {
    protocol = codes "tcp";
    address = codes "10.0.0.1";
    port = codes "9001";
    name = codes "net-vm";
  });
  state = some (record {
    name = codes "app";
    description = codes "An application";
    load_state = codes "loaded";
    active_state = codes "active";
    sub_state = codes "running";
    path = codes "/";
    freezer_state = codes "running";
  });
}

abbrev two_entries : Registry
two_entries = register app_entry (register agent_entry new)

two_entries-Reachable : Reachable two_entries
two_entries-Reachable = then_step (then_step start (registers agent_entry)) (registers app_entry)

Reachable-IsConsistent_example : IsConsistent two_entries
Reachable-IsConsistent_example = Reachable-IsConsistent two_entries two_entries-Reachable

two_entries-IsConsistent : IsConsistent two_entries
two_entries-IsConsistent = Reachable-IsConsistent two_entries two_entries-Reachable

abbrev value_of : Registry → Result Registry → Registry
value_of other (ok a) = a
value_of other (err e) = other
value_of other panic = other

abbrev left : Registry
left = value_of new (deregister (codes "givc-net-vm.service") two_entries)

deregisters_agent : deregister (codes "givc-net-vm.service") two_entries ≡ ok left
unfolding new register deregister get insert remove list_beq
deregisters_agent = refl

deregister-by_name_example :
    (by_name (codes "browser@0.service") left
      ≡ context not_registered (
          left_by
            (codes "givc-net-vm.service")
            (codes "browser@0.service")
            (get (codes "browser@0.service") two_entries.table)))
    × ((re : RegistryEntry)
        → (depends_on (codes "givc-net-vm.service") re ≡ true)
          ↔ GoesWith (codes "givc-net-vm.service") re)
deregister-by_name_example =
    deregister-by_name (codes "givc-net-vm.service") (codes "browser@0.service") two_entries left
      two_entries-IsConsistent deregisters_agent

abbrev stopped : UnitStatus
stopped = record status { active_state = codes "inactive"; sub_state = codes "dead" }

abbrev updated : Registry
updated = value_of new (update_state (codes "browser@0.service") stopped two_entries)

updates_app : update_state (codes "browser@0.service") stopped two_entries ≡ ok updated
unfolding new register update_state get insert remove list_beq
updates_app = refl

replay-view_of_example :
    replay left.sent (λ n. none) (codes "browser@0.service")
    ≡ view_of left (codes "browser@0.service")
replay-view_of_example =
    replay-view_of left (codes "browser@0.service") (
      then_step two_entries-Reachable (deregisters (codes "givc-net-vm.service") deregisters_agent))

create_unique_entry_name_total_example :
    (new_name : Text) × (create_unique_entry_name (codes "browser") two_entries ≡ some new_name)
    × IsUnused (codes "browser") 0 (keys two_entries.table) new_name
create_unique_entry_name_total_example =
    create_unique_entry_name_total (codes "browser") two_entries
