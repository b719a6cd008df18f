-- ===== src/Admin/Naming.antt =====
-- crates/admin/src/utils/naming.rs: the unit names of machines, agents and applications.
use ghaf_givc.Prelude.{
  Option, none, some, ◌++◌, list_eq, option_eq, nat_eq, Result, ok, err, ◌>>=◌, context,
  invalid_number, not_an_application,
}
use ghaf_givc.Text.{Text, codes, strip_prefix, strip_suffix, rsplit_once, ℤ, parse_i32}

pub data VmName : Type 0 where
  vm : Text → VmName
  app : Text → VmName

-- `Display`
unfoldable pub vm_name_text : VmName → Text
vm_name_text (vm name) = name
vm_name_text (app name) = name ++ codes "-vm"

unfoldable pub agent_service : VmName → Text
agent_service name = codes "givc-" ++ (vm_name_text name ++ codes ".service")

unfoldable pub vm_service : VmName → Text
vm_service name = codes "microvm@" ++ (vm_name_text name ++ codes ".service")

-- `strip_suffix` behind a `?`.
abbrev pub then_strip_suffix : Text → Option Text → Option Text
then_strip_suffix suffix none = none
then_strip_suffix suffix (some s) = strip_suffix suffix s

unfoldable pub parse_vm_name : Text → Option Text
parse_vm_name name = then_strip_suffix (codes ".service") (strip_prefix (codes "microvm@") name)

abbrev with_number : Text → ℤ → Text × ℤ
with_number left num = (left, num)

abbrev pub application_parts : Option (Text × Text) → Result (Text × ℤ)
application_parts none = err not_an_application
application_parts (some (left, right)) =
    context invalid_number (parse_i32 right) >>= λ num. ok (with_number left num)

abbrev pub application_stem : Option Text → Result (Text × ℤ)
application_stem none = err not_an_application
application_stem (some name_no_suffix) = application_parts (rsplit_once b'@' name_no_suffix)

unfoldable pub parse_application_name : Text → Result (Text × ℤ)
parse_application_name name = application_stem (strip_suffix (codes ".service") name)
