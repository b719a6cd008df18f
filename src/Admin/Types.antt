-- ===== src/Admin/Types.antt =====
-- crates/common/src/types.rs and address.rs: unit types, unit statuses and endpoints, and the
-- messages of api/admin/admin.proto and api/systemd/systemd.proto that carry them.
pub mod RoundTrip
use ghaf_givc.Prelude.{
  ℕ, Bool, false, not, ◌&&◌, ◌||◌, List, [], ◌∷◌, map, if◌then◌else◌, ◌==◌, list_beq, list_eq,
  option_eq, nat_eq, Result, ok, err, ◌>>=◌, context, unknown_unit_type, unknown_protocol,
  invalid_number,
}
use ghaf_givc.Text.{Text, codes, decimal, parse_unsigned, u16_max, u32_max}

pub data VmType : Type 0 where
  host adm_vm sys_vm app_vm : VmType

pub data ServiceType : Type 0 where
  mgr svc app service_vm : ServiceType

pub record UnitType : Type 0 where
  pub vm : VmType
  pub service : ServiceType

abbrev unit_type : VmType → ServiceType → Result UnitType
unit_type v s = ok (record { vm = v; service = s })

unfoldable pub unit_type_from : ℕ → Result UnitType
unit_type_from value =
    if value == 0
    then unit_type host mgr
    else if value == 1
    then unit_type host svc
    else if value == 2
    then unit_type host app
    else if value == 3
    then unit_type adm_vm service_vm
    else if value == 4
    then unit_type adm_vm mgr
    else if value == 5
    then unit_type adm_vm svc
    else if value == 6
    then unit_type adm_vm app
    else if value == 7
    then unit_type sys_vm service_vm
    else if value == 8
    then unit_type sys_vm mgr
    else if value == 9
    then unit_type sys_vm svc
    else if value == 10
    then unit_type sys_vm app
    else if value == 11
    then unit_type app_vm service_vm
    else if value == 12
    then unit_type app_vm mgr
    else if value == 13
    then unit_type app_vm svc
    else if value == 14
    then unit_type app_vm app
    else err unknown_unit_type

abbrev code_of : VmType → ServiceType → ℕ
code_of host mgr = 0
code_of host svc = 1
code_of host app = 2
code_of host service_vm = 100500
code_of adm_vm service_vm = 3
code_of adm_vm mgr = 4
code_of adm_vm svc = 5
code_of adm_vm app = 6
code_of sys_vm service_vm = 7
code_of sys_vm mgr = 8
code_of sys_vm svc = 9
code_of sys_vm app = 10
code_of app_vm service_vm = 11
code_of app_vm mgr = 12
code_of app_vm svc = 13
code_of app_vm app = 14

unfoldable pub unit_type_into : UnitType → ℕ
unit_type_into t = code_of t.vm t.service

pub record UnitStatus : Type 0 where
  pub name : Text
  pub description : Text
  pub load_state : Text
  pub active_state : Text
  pub sub_state : Text
  pub path : Text
  pub freezer_state : Text

-- `matches!` on texts
unfoldable pub one_of : List Text → Text → Bool
one_of [] s = false
one_of (w ∷ ws) s = s == w || one_of ws s

unfoldable pub is_valid : UnitStatus → Bool
is_valid us =
    one_of
      (map codes (
        "frozen" ∷ "running" ∷ "freezing" ∷ "thawing" ∷ "frozen-by-parent" ∷ "freezing-by-parent"
        ∷ []))
      us.freezer_state
    && (one_of
          (map codes ("stub" ∷ "loaded" ∷ "not-found" ∷ "bad-setting" ∷ "merged" ∷ "masked" ∷ []))
          us.load_state
        && (one_of
              (map codes (
                "active" ∷ "reloading" ∷ "inactive" ∷ "failed" ∷ "activating" ∷ "deactivating"
                ∷ "maintenance" ∷ "refreshing" ∷ []))
              us.active_state
            && one_of (map codes ("dead" ∷ "running" ∷ "exitted" ∷ [])) us.sub_state))

unfoldable pub is_paused : UnitStatus → Bool
is_paused us = us.freezer_state == codes "frozen"

unfoldable pub is_running : UnitStatus → Bool
is_running us =
    not (is_paused us)
    && (us.active_state == codes "active"
        && (us.load_state == codes "loaded" && us.sub_state == codes "running"))

unfoldable pub is_exitted : UnitStatus → Bool
is_exitted us = us.active_state == codes "inactive" && us.sub_state == codes "dead"

-- `systemd.UnitStatus` of the protocol.
pub record UnitStatusMessage : Type 0 where
  pub name : Text
  pub description : Text
  pub load_state : Text
  pub active_state : Text
  pub sub_state : Text
  pub path : Text
  pub freezer_state : Text

unfoldable pub unit_status_from : UnitStatusMessage → Result UnitStatus
unit_status_from us = ok (record {
  name = us.name;
  description = us.description;
  load_state = us.load_state;
  active_state = us.active_state;
  sub_state = us.sub_state;
  path = us.path;
  freezer_state = us.freezer_state;
})

unfoldable pub unit_status_into : UnitStatus → UnitStatusMessage
unit_status_into us = record {
  name = us.name;
  description = us.description;
  load_state = us.load_state;
  active_state = us.active_state;
  sub_state = us.sub_state;
  path = us.path;
  freezer_state = us.freezer_state;
}

pub data EndpointAddress : Type 0 where
  tcp : (addr : Text) (port : ℕ) → EndpointAddress
  unix : Text → EndpointAddress
  abstract_socket : Text → EndpointAddress
  vsock : (cid port : ℕ) → EndpointAddress

pub record EndpointEntry : Type 0 where
  pub address : EndpointAddress
  pub tls_name : Text

-- `TransportConfig` of the protocol.
pub record TransportMessage : Type 0 where
  pub protocol : Text
  pub address : Text
  pub port : Text
  pub name : Text

unfoldable pub tcp_address : Text → Text → Result EndpointAddress
tcp_address address port = do
  tcp_port ← context invalid_number (parse_unsigned u16_max port)
  ok (tcp address tcp_port)

unfoldable pub vsock_address : Text → Text → Result EndpointAddress
vsock_address address port = do
  cid ← context invalid_number (parse_unsigned u32_max address)
  vsock_port ← context invalid_number (parse_unsigned u32_max port)
  ok (vsock cid vsock_port)

-- The `match` on the protocol.
unfoldable pub endpoint_address : Text → Text → Text → Result EndpointAddress
unfolding list_beq
endpoint_address protocol address port =
    if protocol == codes "tcp"
    then tcp_address address port
    else if protocol == codes "unix"
    then ok (unix address)
    else if protocol == codes "abstract"
    then ok (abstract_socket address)
    else if protocol == codes "vsock"
    then vsock_address address port
    else err unknown_protocol

unfoldable pub endpoint_from : TransportMessage → Result EndpointEntry
endpoint_from tc = do
  endpoint ← endpoint_address tc.protocol tc.address tc.port
  ok (record { address = endpoint; tls_name = tc.name })

abbrev endpoint_message : EndpointAddress → Text → TransportMessage
endpoint_message (tcp addr port) name = record {
  protocol = codes "tcp";
  address = addr;
  port = decimal port;
  name = name;
}
endpoint_message (unix path) name = record {
  protocol = codes "unix";
  address = path;
  port = [];
  name = name;
}
endpoint_message (abstract_socket path) name = record {
  protocol = codes "abstract";
  address = path;
  port = [];
  name = name;
}
endpoint_message (vsock cid port) name = record {
  protocol = codes "vsock";
  address = decimal cid;
  port = decimal port;
  name = name;
}

unfoldable pub endpoint_into : EndpointEntry → TransportMessage
endpoint_into val = endpoint_message val.address val.tls_name
