-- ===== src/Policy/Refresh.antt =====
-- crates/policyadmin/src/policy_manager.rs: sending all policies to a machine, and to all machines.
pub mod Everything
use ghaf_givc.Prelude.{
  Bool, ◌&&◌, Option, none, some, List, [], ◌∷◌, if◌then◌else◌, list_eq, option_eq, nat_eq,
}
use ghaf_givc.Text.{Text, contains, join}
use ghaf_givc.Policy.{PolicyConfigPolicy, PolicyManager, send_to_vm, or_same, subscribers}

-- The store of the policies: which paths exist, the readable entries of a directory, if it can be
-- read, and which of them are files.
pub record Store : Type 0 where
  pub exists : Text → Bool
  pub read_dir : Text → Option (List Text)
  pub is_file : Text → Bool

abbrev pub entries_of : Option (List Text) → List Text
entries_of none = []
entries_of (some paths) = paths

module _ (store : Store) where
  unfoldable pub send_files : Text → Text → List Text → PolicyManager → PolicyManager
  send_files vm_name policy [] manager = manager
  send_files vm_name policy (path ∷ paths) manager = send_files vm_name policy paths (
      if store.is_file path
      then or_same manager (send_to_vm vm_name policy path manager)
      else manager)

  -- Only those policies that the machine is subscribed to.
  unfoldable pub send_policy : Text → Text → PolicyManager → PolicyManager
  send_policy vm_name policy manager =
      if store.exists (join manager.policy_dir policy)
        && contains (subscribers policy manager.configs.policies) vm_name
      then send_files vm_name policy (entries_of (store.read_dir (join manager.policy_dir policy)))
          manager
      else manager

  unfoldable pub send_policies :
      Text → List (Text × PolicyConfigPolicy) → PolicyManager → PolicyManager
  send_policies vm_name [] manager = manager
  send_policies vm_name (policy ∷ policies) manager =
      send_policies vm_name policies (send_policy vm_name policy.0 manager)

  unfoldable pub send_all_policies : Text → PolicyManager → PolicyManager
  send_all_policies vm_name manager = send_policies vm_name manager.configs.policies manager

  unfoldable pub update_vms : List Text → PolicyManager → PolicyManager
  update_vms [] manager = manager
  update_vms (vm ∷ vms) manager = update_vms vms (send_all_policies vm manager)

  unfoldable pub force_update_all_vms : PolicyManager → PolicyManager
  force_update_all_vms manager = update_vms manager.workers manager
