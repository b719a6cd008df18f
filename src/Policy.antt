-- ===== src/Policy.antt =====
-- crates/policyadmin/src/policy_manager.rs and policy.rs: the manager of the policies, which queues
-- updates for the workers of the machines.
pub mod Workers
pub mod Changes
pub mod Recipients
pub mod Refresh
pub mod Repo
pub mod Urls
use ghaf_givc.Prelude.{
  ℕ, Bool, Option, none, some, List, [], ◌∷◌, ◌++◌, if◌then◌else◌, ◌==◌, list_eq, option_eq, nat_eq,
  Result, ok, err, panic, no_worker,
}
use ghaf_givc.Text.{
  Text, codes, contains, strip_prefix, split_char, split_whitespace, lines, trim, join,
}

pub data PolicySourceType : Type 0 where
  no_source git_url per_policy : PolicySourceType

pub record PolicySource : Type 0 where
  pub kind : PolicySourceType
  pub url : Option Text
  pub branch : Option Text
  pub poll_interval_secs : Option ℕ

pub record PolicyConfigPolicyUpdater : Type 0 where
  pub url : Text
  pub head : Option Text
  pub poll_interval_secs : Option ℕ

pub record PolicyConfigPolicy : Type 0 where
  pub url : Option Text
  pub vms : List Text
  pub per_policy_updater : Option PolicyConfigPolicyUpdater

-- The policies by their names.
pub record PolicyConfig : Type 0 where
  pub source : PolicySource
  pub policies : List (Text × PolicyConfigPolicy)

-- A message in the channel of a machine's worker.
pub record Task : Type 0 where
  pub vm : Text
  pub policy_name : Text
  pub file : Text

-- The manager, with the names of its workers, and the messages sent to them, the last at the end.
pub record PolicyManager : Type 0 where
  pub policy_dir : Text
  pub configs : PolicyConfig
  pub workers : List Text
  pub queued : List Task

unfoldable pub add_worker : Text → PolicyManager → PolicyManager
add_worker vm manager =
    if contains manager.workers vm
    then manager
    else record manager { workers = vm ∷ manager.workers }

-- The loop over the machines.
unfoldable pub add_workers : List Text → PolicyManager → PolicyManager
add_workers [] manager = manager
add_workers (vm ∷ vms) manager = add_workers vms (add_worker vm manager)

unfoldable pub vm_names : List (Text × PolicyConfigPolicy) → List Text
vm_names [] = []
vm_names (policy ∷ policies) = policy.1.vms ++ vm_names policies

unfoldable pub new_manager : Text → PolicyConfig → PolicyManager
new_manager store_dir configs =
    add_workers (vm_names configs.policies)
      (record { policy_dir = store_dir; configs = configs; workers = []; queued = [] })

-- A worker's channel is open as long as the manager is there.
unfoldable pub send_to_vm : Text → Text → Text → PolicyManager → Result PolicyManager
send_to_vm vm policy_name file_path manager =
    if contains manager.workers vm
    then ok (record manager {
      queued =
          manager.queued ++ (record { vm = vm; policy_name = policy_name; file = file_path } ∷ []);
    })
    else err no_worker

-- An error of one machine is ignored.
abbrev pub or_same : PolicyManager → Result PolicyManager → PolicyManager
or_same manager (ok next) = next
or_same manager (err e) = manager
or_same manager panic = manager

unfoldable pub send_to_vms : List Text → Text → Text → PolicyManager → PolicyManager
send_to_vms [] policy_name file manager = manager
send_to_vms (vm ∷ vms) policy_name file manager =
    send_to_vms vms policy_name file (or_same manager (send_to_vm vm policy_name file manager))

-- The machines of a policy; none if there is no such policy.
unfoldable pub subscribers : Text → List (Text × PolicyConfigPolicy) → List Text
subscribers name [] = []
subscribers name (policy ∷ policies) =
    if policy.0 == name then policy.1.vms else subscribers name policies

-- `nth(1)`
abbrev pub second : List Text → Option Text
second [] = none
second (x ∷ []) = none
second (x ∷ y ∷ rest) = some y

-- `next` twice, and `zip`.
abbrev pub first_two : List Text → Option (Text × Text)
first_two [] = none
first_two (x ∷ []) = none
first_two (x ∷ y ∷ rest) = some (x, y)

abbrev pub policy_and_file : Option Text → Option (Text × Text)
policy_and_file none = none
policy_and_file (some rest) = first_two (split_char b'/' rest)

abbrev pub below_policies : Option Text → Option Text
below_policies none = none
below_policies (some relative_path) = strip_prefix (codes "vm-policies/") relative_path

-- The policy and the file that a line names.
unfoldable pub parse_line : Text → Option (Text × Text)
parse_line line = policy_and_file (below_policies (second (split_whitespace line)))

unfoldable pub full_path : PolicyManager → Text → Text → Text
full_path manager policy_name file_name = join (join manager.policy_dir policy_name) file_name

module _ (exists : Text → Bool) where
  abbrev pub process_change : PolicyManager → Option (Text × Text) → PolicyManager
  process_change manager none = manager
  process_change manager (some (policy_name, file_name)) =
      if exists (full_path manager policy_name file_name)
      then send_to_vms (subscribers policy_name manager.configs.policies) policy_name
          (full_path manager policy_name file_name) manager
      else manager

  -- One round of the loop over the lines; an empty line is skipped.
  unfoldable pub process_line : Text → PolicyManager → PolicyManager
  process_line line manager =
      if trim line == [] then manager else process_change manager (parse_line (trim line))

  unfoldable pub process_lines : List Text → PolicyManager → PolicyManager
  process_lines [] manager = manager
  process_lines (line ∷ rest) manager = process_lines rest (process_line line manager)

  unfoldable pub process_changeset : Text → PolicyManager → PolicyManager
  process_changeset changeset manager = process_lines (lines changeset) manager
