-- ===== src/Admin/Types/RoundTrip.antt =====
-- crates/common/src/types.rs: the conversions from and to the messages.
use ghaf_givc.Prelude.{
  ℕ, ◌≤◌, ◌≡◌, refl, arith, if◌then◌else◌, ◌==◌, list_beq, list_eq, option_eq, nat_eq, ok, err,
  unknown_unit_type,
}
use ghaf_givc.Text.{Text, parse_unsigned-decimal, u16_max, u32_max}
use ghaf_givc.Admin.Types.{
  VmType, host, adm_vm, sys_vm, app_vm, ServiceType, mgr, svc, app, service_vm, UnitType,
  unit_type_from, unit_type_into, EndpointAddress, tcp, unix, abstract_socket, vsock,
  endpoint_address, endpoint_from, endpoint_into, tcp_address, vsock_address,
}

-- The number of a unit type is read back as this type, except for the type of a machine on the
-- host, whose number is refused.
unit_type_from-unit_type_into :
    (vm : VmType) (service : ServiceType)
    → unit_type_from (unit_type_into (record { vm = vm; service = service })) ≡ (
        if unit_type_into (record { vm = vm; service = service }) == 100500
        then err unknown_unit_type
        else ok (record { vm = vm; service = service }))
unfolding unit_type_from unit_type_into
unit_type_from-unit_type_into host mgr = refl
unit_type_from-unit_type_into host svc = refl
unit_type_from-unit_type_into host app = refl
unit_type_from-unit_type_into host service_vm = refl
unit_type_from-unit_type_into adm_vm mgr = refl
unit_type_from-unit_type_into adm_vm svc = refl
unit_type_from-unit_type_into adm_vm app = refl
unit_type_from-unit_type_into adm_vm service_vm = refl
unit_type_from-unit_type_into sys_vm mgr = refl
unit_type_from-unit_type_into sys_vm svc = refl
unit_type_from-unit_type_into sys_vm app = refl
unit_type_from-unit_type_into sys_vm service_vm = refl
unit_type_from-unit_type_into app_vm mgr = refl
unit_type_from-unit_type_into app_vm svc = refl
unit_type_from-unit_type_into app_vm app = refl
unit_type_from-unit_type_into app_vm service_vm = refl

-- A number that is read as a unit type is the number of this type.
pub unit_type_into-unit_type_from :
    (n : ℕ) (t : UnitType) → unit_type_from n ≡ ok t → unit_type_into t ≡ n
unfolding unit_type_from unit_type_into
unit_type_into-unit_type_from n t e = ground arith

-- The numbers fit the widths of their types.
abbrev pub IsRepresentable : EndpointAddress → Type 0
IsRepresentable (tcp addr port) = port ≤ u16_max
IsRepresentable (unix path) = Unit
IsRepresentable (abstract_socket path) = Unit
IsRepresentable (vsock cid port) = (cid ≤ u32_max) × (port ≤ u32_max)

-- An endpoint whose numbers fit their types is read back from its message.
endpoint_from-endpoint_into :
    (address : EndpointAddress) (tls_name : Text)
    → IsRepresentable address
    → endpoint_from (endpoint_into (record { address = address; tls_name = tls_name }))
      ≡ ok (record { address = address; tls_name = tls_name })
unfolding endpoint_from endpoint_into endpoint_address tcp_address vsock_address list_beq
endpoint_from-endpoint_into (tcp addr port) name h = rw (parse_unsigned-decimal u16_max port h) refl
endpoint_from-endpoint_into (unix path) name h = refl
endpoint_from-endpoint_into (abstract_socket path) name h = refl
endpoint_from-endpoint_into (vsock cid port) name h =
    rw (parse_unsigned-decimal u32_max cid h.0, parse_unsigned-decimal u32_max port h.1) refl
