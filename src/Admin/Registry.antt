-- ===== src/Admin/Registry.antt =====
-- crates/admin/src/admin/registry.rs: the registry of units, and the events it sends.
pub mod Table
pub mod Invariant
pub mod Effects
pub mod Names
pub mod Views
pub mod Replay
pub mod Search
use ghaf_givc.Prelude.{
  ℕ, zero, suc, ◌+◌, Bool, false, not, ◌&&◌, ◌||◌, Option, none, some, List, [], ◌∷◌, ◌++◌, map,
  if◌then◌else◌, is_some, ◌==◌, list_eq, option_eq, nat_eq, length, filter_by, Result, ok, err,
  ◌>>=◌, ◌>>◌, context, not_registered, no_entries_match, no_service, more_than_one_service,
}
use ghaf_givc.Text.{Text, codes, decimal, strip_prefix, contains}
use ghaf_givc.Admin.Types.{
  UnitType, UnitStatus, VmType, host, adm_vm, sys_vm, app_vm, ServiceType, mgr, svc, app,
  service_vm,
}
use ghaf_givc.Admin.Query.{QueryResult, Event, unit_status_changed, unit_registered, unit_shutdown}
use ghaf_givc.Admin.Naming.{parse_vm_name}
use ghaf_givc.Admin.Entry.{RegistryEntry, agent_name, vm_name, entry_into}

-- The hash map as the list of its keys and values, in the order of its iterators.
abbrev pub Table : Type 0
Table = List (Text × RegistryEntry)

-- The map, and the events sent to the subscribers, the last one at the end.
pub record Registry : Type 0 where
  pub table : Table
  pub sent : List Event

unfoldable pub new : Registry
new = record { table = []; sent = [] }

unfoldable pub get : Text → Table → Option RegistryEntry
get name [] = none
get name (row ∷ t) = if row.0 == name then some row.1 else get name t

-- The rows that pass the test, as `extract_if` leaves or takes them.
unfoldable pub rows : (RegistryEntry → Bool) → Table → Table
rows p [] = []
rows p (row ∷ t) = if p row.1 then row ∷ rows p t else rows p t

unfoldable pub remove : Text → Table → Table
remove name [] = []
remove name (row ∷ t) = if row.0 == name then remove name t else row ∷ remove name t

unfoldable pub insert : Text → RegistryEntry → Table → Table
insert name entry t = (name, entry) ∷ remove name t

abbrev pub keys : Table → List Text
keys [] = []
keys (row ∷ t) = row.0 ∷ keys t

abbrev pub values : Table → List RegistryEntry
values [] = []
values (row ∷ t) = row.1 ∷ values t

abbrev pub shutdown : RegistryEntry → Event
shutdown entry = unit_shutdown (entry_into entry)

-- The event for a replaced entry.
abbrev pub replaced : Option RegistryEntry → List Event
replaced none = []
replaced (some old) = shutdown old ∷ []

unfoldable pub register : RegistryEntry → Registry → Registry
register entry reg = record {
  table = insert entry.name entry reg.table;
  sent =
      reg.sent
      ++ (replaced (get entry.name reg.table) ++ (unit_registered (entry_into entry) ∷ []));
}

-- `zip` and `is_some_and`
abbrev pub same_vm : Option Text → Option Text → Bool
same_vm none b = false
same_vm (some a) none = false
same_vm (some a) (some b) = a == b

-- The entry goes with the unit of the name: its agent, or its machine.
unfoldable pub depends_on : Text → RegistryEntry → Bool
depends_on name re = agent_name re == some name || same_vm (vm_name re) (parse_vm_name name)

abbrev pub deregister_entry : Text → Registry → RegistryEntry → Registry
deregister_entry name reg entry =
    let left = remove name reg.table in
    record {
      table = rows (λ re. not (depends_on name re)) left;
      sent =
          reg.sent
          ++ (map shutdown (values (rows (depends_on name) left)) ++ (shutdown entry ∷ []));
    }

unfoldable pub deregister : Text → Registry → Result Registry
deregister name reg = do
  entry ← context not_registered (get name reg.table)
  ok (deregister_entry name reg entry)

unfoldable pub by_name : Text → Registry → Result RegistryEntry
by_name name reg = context not_registered (get name reg.table)

abbrev pub some_names : List Text → Result (List Text)
some_names [] = err no_entries_match
some_names (n ∷ ns) = ok (n ∷ ns)

-- `starts_with`
abbrev pub starts_with : Text → Text → Bool
starts_with name x = is_some (strip_prefix name x)

unfoldable pub find_names : Text → Registry → Result (List Text)
find_names name reg = some_names (filter_by (starts_with name) (keys reg.table))

abbrev vm_code : VmType → ℕ
vm_code host = 0
vm_code adm_vm = 1
vm_code sys_vm = 2
vm_code app_vm = 3

abbrev service_code : ServiceType → ℕ
service_code mgr = 0
service_code svc = 1
service_code app = 2
service_code service_vm = 3

-- `PartialEq`
abbrev pub unit_type_beq : UnitType → UnitType → Bool
unit_type_beq a b = vm_code a.vm == vm_code b.vm && service_code a.service == service_code b.service

unfoldable pub by_type_many : UnitType → Registry → List RegistryEntry
by_type_many ty reg = filter_by (λ x. unit_type_beq x.unit_type ty) (values reg.table)

abbrev pub single_service : List RegistryEntry → Result RegistryEntry
single_service [] = err no_service
single_service (e ∷ []) = ok e
single_service (e ∷ f ∷ es) = err more_than_one_service

unfoldable pub by_type : UnitType → Registry → Result RegistryEntry
by_type ty reg = single_service (by_type_many ty reg)

unfoldable pub contains_key : Text → Registry → Bool
contains_key name reg = contains (keys reg.table) name

abbrev pub entry_name : Text → ℕ → Text
entry_name name counter = name ++ (b'@' ∷ (decimal counter ++ codes ".service"))

-- The loop on the counter, for as many rounds as the fuel gives.
unfoldable pub unique_from : ℕ → ℕ → Text → List Text → Option Text
unique_from zero counter name used = none
unique_from (suc fuel) counter name used =
    let rest = unique_from fuel (counter + 1) name used in
    if contains used (entry_name name counter) then rest else some (entry_name name counter)

-- One round more than there are entries is enough.
unfoldable pub create_unique_entry_name : Text → Registry → Option Text
create_unique_entry_name name reg = unique_from (suc (length reg.table)) 0 name (keys reg.table)

unfoldable pub watch_list : Registry → List RegistryEntry
watch_list reg = filter_by (λ x. x.watch) (values reg.table)

abbrev pub with_status : UnitStatus → RegistryEntry → RegistryEntry
with_status us e = record {
  name = e.name;
  unit_type = e.unit_type;
  status = us;
  placement = e.placement;
  watch = e.watch;
}

-- `get_mut`, and the assignment through it.
unfoldable pub set_status : Text → UnitStatus → Table → Table
set_status name us [] = []
set_status name us (row ∷ t) =
    if row.0 == name then (row.0, with_status us row.1) ∷ t else row ∷ set_status name us t

abbrev pub updated_registry : Text → UnitStatus → Registry → RegistryEntry → Registry
updated_registry name us reg e = record {
  table = set_status name us reg.table;
  sent = reg.sent ++ (unit_status_changed (entry_into (with_status us e)) ∷ []);
}

unfoldable pub update_state : Text → UnitStatus → Registry → Result Registry
update_state name us reg = do
  e ← context not_registered (get name reg.table)
  ok (updated_registry name us reg e)

unfoldable pub contents : Registry → List RegistryEntry
contents reg = values reg.table

-- The channel's receiver is created before the lock is taken: the position in the events is of one
-- state, and the contents are of a state that may be later.
unfoldable pub subscribe : Registry → Registry → List QueryResult × ℕ
subscribe at_receiver at_contents =
    (map entry_into (values at_contents.table), length at_receiver.sent)
