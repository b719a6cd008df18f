-- ===== src/Admin/Entry.antt =====
-- crates/admin/src/admin/entry.rs: the entries of the registry.
pub mod Requests
use ghaf_givc.Prelude.{
  ℕ, Bool, true, false, not, ◌&&◌, ◌||◌, Option, none, some, [], if◌then◌else◌, list_eq, option_eq,
  nat_eq, Result, ok, err, ◌>>=◌, context, status_missing, endpoint_missing, managed_by_other,
  its_a_host,
}
use ghaf_givc.Text.{Text}
use ghaf_givc.Admin.Types.{
  VmType, app_vm, ServiceType, mgr, svc, app, service_vm, UnitType, unit_type_from, UnitStatus,
  is_running, is_paused, UnitStatusMessage, unit_status_from, EndpointEntry, TransportMessage,
  endpoint_from, host, adm_vm, sys_vm,
}
use ghaf_givc.Admin.Query.{QueryResult, VmStatus, running, powered_off, paused, warning}
use ghaf_givc.Admin.Naming.{parse_vm_name}

pub data Placement : Type 0 where
  endpoint_of : (endpoint : EndpointEntry) (vm : Text) → Placement
  managed : (vm by : Text) → Placement
  on_host : Placement

pub record RegistryEntry : Type 0 where
  pub name : Text
  pub unit_type : UnitType
  pub status : UnitStatus
  pub placement : Placement
  pub watch : Bool

abbrev placement_agent : Text → Placement → Option Text
placement_agent name (endpoint_of endpoint vm) = some name
placement_agent name (managed vm by) = some by
placement_agent name on_host = none

unfoldable pub agent_name : RegistryEntry → Option Text
agent_name e = placement_agent e.name e.placement

abbrev placement_vm : Placement → Option Text
placement_vm (endpoint_of endpoint vm) = some vm
placement_vm (managed vm by) = parse_vm_name vm
placement_vm on_host = none

abbrev service_vm_name : Text → Placement → ServiceType → Option Text
service_vm_name name p service_vm = parse_vm_name name
service_vm_name name p mgr = placement_vm p
service_vm_name name p svc = placement_vm p
service_vm_name name p app = placement_vm p

unfoldable pub vm_name : RegistryEntry → Option Text
vm_name e = service_vm_name e.name e.placement e.unit_type.service

abbrev placement_endpoint : Placement → Result EndpointEntry
placement_endpoint (endpoint_of endpoint vm) = ok endpoint
placement_endpoint (managed vm by) = err managed_by_other
placement_endpoint on_host = err its_a_host

unfoldable pub agent : RegistryEntry → Result EndpointEntry
agent e = placement_endpoint e.placement

-- `RegistryRequest` of the protocol.
pub record RegistryRequest : Type 0 where
  pub name : Text
  pub parent : Text
  pub unit_type : ℕ
  pub transport : Option TransportMessage
  pub state : Option UnitStatusMessage

abbrev pub is_mgr : ServiceType → Bool
is_mgr mgr = true
is_mgr svc = false
is_mgr app = false
is_mgr service_vm = false

abbrev pub is_svc : ServiceType → Bool
is_svc svc = true
is_svc mgr = false
is_svc app = false
is_svc service_vm = false

abbrev pub is_app_vm : VmType → Bool
is_app_vm app_vm = true
is_app_vm host = false
is_app_vm adm_vm = false
is_app_vm sys_vm = false

unfoldable pub is_watched : UnitType → Bool
is_watched ty = is_mgr ty.service || (is_app_vm ty.vm && not (is_svc ty.service))

-- `unwrap_or_default`
abbrev pub or_empty : Option Text → Text
or_empty none = []
or_empty (some s) = s

unfoldable pub entry_from : RegistryRequest → Result RegistryEntry
entry_from req = do
  ty ← unit_type_from req.unit_type
  state ← context status_missing req.state
  status ← unit_status_from state
  transport ← context endpoint_missing req.transport
  endpoint ← endpoint_from transport
  ok (record {
    name = req.name;
    unit_type = ty;
    status = status;
    placement = endpoint_of endpoint (or_empty (parse_vm_name req.parent));
    watch = is_watched ty;
  })

unfoldable pub status_summary : UnitStatus → VmStatus
status_summary us = if is_running us then running else if is_paused us then paused else powered_off

unfoldable pub entry_into : RegistryEntry → QueryResult
entry_into val = record {
  name = val.name;
  description = val.status.description;
  status = status_summary val.status;
  trust_level = warning;
  vm_type = val.unit_type.vm;
  service_type = val.unit_type.service;
  vm_name = vm_name val;
  agent_name = agent_name val;
}
