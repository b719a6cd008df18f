-- ===== src/Tests/EnumTests.antt =====
-- crates/common/src: the enumerations written by the names of their values.
use ghaf_givc.Prelude.{
  ◌≡◌, refl, Option, some, List, [], ◌∷◌, ◌==◌, list_beq, list_eq, option_eq, nat_eq, find,
}
use ghaf_givc.Text.{Text, codes}
use ghaf_givc.Admin.Types.{
  VmType, host, adm_vm, sys_vm, app_vm, ServiceType, mgr, svc, app, service_vm,
}
use ghaf_givc.Admin.Query.{
  VmStatus, running, powered_off, paused, TrustLevel, secure, warning, not_secure, EnumTexts,
}

abbrev status_text : VmStatus → Text
status_text running = codes "Running"
status_text powered_off = codes "PoweredOff"
status_text paused = codes "Paused"

abbrev trust_text : TrustLevel → Text
trust_text secure = codes "Secure"
trust_text warning = codes "Warning"
trust_text not_secure = codes "NotSecure"

abbrev vm_type_text : VmType → Text
vm_type_text host = codes "Host"
vm_type_text adm_vm = codes "AdmVM"
vm_type_text sys_vm = codes "SysVM"
vm_type_text app_vm = codes "AppVM"

abbrev service_type_text : ServiceType → Text
service_type_text mgr = codes "Mgr"
service_type_text svc = codes "Svc"
service_type_text app = codes "App"
service_type_text service_vm = codes "VM"

abbrev read : {A : Type 0} → (A → Text) → List A → Text → Option A
read name xs s = find (λ x. name x == s) xs

pub read-status_text :
    (x : VmStatus) → read status_text (running ∷ powered_off ∷ paused ∷ []) (status_text x) ≡ some x
unfolding find list_beq
read-status_text running = refl
read-status_text powered_off = refl
read-status_text paused = refl

pub read-trust_text :
    (x : TrustLevel) → read trust_text (secure ∷ warning ∷ not_secure ∷ []) (trust_text x) ≡ some x
unfolding find list_beq
read-trust_text secure = refl
read-trust_text warning = refl
read-trust_text not_secure = refl

pub read-vm_type_text :
    (x : VmType)
    → read vm_type_text (host ∷ adm_vm ∷ sys_vm ∷ app_vm ∷ []) (vm_type_text x) ≡ some x
unfolding find list_beq
read-vm_type_text host = refl
read-vm_type_text adm_vm = refl
read-vm_type_text sys_vm = refl
read-vm_type_text app_vm = refl

pub read-service_type_text :
    (x : ServiceType)
    → read service_type_text (mgr ∷ svc ∷ app ∷ service_vm ∷ []) (service_type_text x) ≡ some x
unfolding find list_beq
read-service_type_text mgr = refl
read-service_type_text svc = refl
read-service_type_text app = refl
read-service_type_text service_vm = refl

-- Every enumeration written by the names of its values.
abbrev pub texts : EnumTexts
texts = record {
  vm_statuses = record {
    to_string = status_text;
    from_str = read status_text (running ∷ powered_off ∷ paused ∷ []);
    from_str-to_string = read-status_text;
  };
  trust_levels = record {
    to_string = trust_text;
    from_str = read trust_text (secure ∷ warning ∷ not_secure ∷ []);
    from_str-to_string = read-trust_text;
  };
  vm_types = record {
    to_string = vm_type_text;
    from_str = read vm_type_text (host ∷ adm_vm ∷ sys_vm ∷ app_vm ∷ []);
    from_str-to_string = read-vm_type_text;
  };
  service_types = record {
    to_string = service_type_text;
    from_str = read service_type_text (mgr ∷ svc ∷ app ∷ service_vm ∷ []);
    from_str-to_string = read-service_type_text;
  };
}
