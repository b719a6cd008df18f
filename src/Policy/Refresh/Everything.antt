-- ===== src/Policy/Refresh/Everything.antt =====
-- crates/policyadmin/src/policy_manager.rs: the updates that a full refresh queues.
use ghaf_givc.Prelude.{
  ◌≡◌, sym, ap, ◌∙◌, inl, inr, Bool, true, ◌&&◌, ◌||◌, List, [], ◌∷◌, ◌++◌, arith, if◌then◌else◌,
  Bool-cases, ◌==◌, eq_refl, list_eq, option_eq, nat_eq, All,
}
use mathlib.Core.List.{append_assoc, append-nil}
use ghaf_givc.Text.{Text, contains, join}
use ghaf_givc.Policy.{
  PolicyConfigPolicy, PolicyConfig, PolicyManager, Task, send_to_vm, or_same, subscribers,
}
use ghaf_givc.Policy.Workers.{HasWorker}
use ghaf_givc.Policy.Changes.{with_tasks, send_to_vm-HasWorker}
use ghaf_givc.Policy.Refresh.{
  Store, send_files, entries_of, send_policy, send_policies, send_all_policies, update_vms,
  force_update_all_vms,
}

module _ (store : Store) where
  -- An update for each file among the entries of a directory.
  unfoldable pub file_tasks : Text → Text → List Text → List Task
  file_tasks vm_name policy [] = []
  file_tasks vm_name policy (path ∷ paths) =
      (if store.is_file path
        then record { vm = vm_name; policy_name = policy; file = path } ∷ []
        else [])
      ++ file_tasks vm_name policy paths

  module _ (dir : Text) (configs : PolicyConfig) (vm_name : Text) where
    abbrev pub policy_tasks : Text → List Task
    policy_tasks policy =
        if store.exists (join dir policy) && contains (subscribers policy configs.policies) vm_name
        then file_tasks vm_name policy (entries_of (store.read_dir (join dir policy)))
        else []

    -- An update for each file of each policy that the machine is subscribed to.
    unfoldable pub machine_tasks : List (Text × PolicyConfigPolicy) → List Task
    machine_tasks [] = []
    machine_tasks (policy ∷ policies) = policy_tasks policy.0 ++ machine_tasks policies

  unfoldable pub refresh_tasks : Text → PolicyConfig → List Text → List Task
  refresh_tasks dir configs [] = []
  refresh_tasks dir configs (vm ∷ vms) =
      machine_tasks dir configs vm configs.policies ++ refresh_tasks dir configs vms

  with_tasks-twice :
      (m : PolicyManager) (a b : List Task) → with_tasks (with_tasks m a) b ≡ with_tasks m (a ++ b)
  with_tasks-twice m a b = ap (λ q. record m { queued = q }) (append_assoc m.queued a b)

  with_tasks-nil : (m : PolicyManager) → m ≡ with_tasks m []
  with_tasks-nil m = ap (λ q. record m { queued = q }) (sym (append-nil m.queued))

  send_file-tasks :
      (vm_name policy path : Text) (m : PolicyManager)
      → HasWorker m vm_name
      → (if store.is_file path then or_same m (send_to_vm vm_name policy path m) else m)
        ≡ with_tasks m (
            if store.is_file path
            then record { vm = vm_name; policy_name = policy; file = path } ∷ []
            else [])
  send_file-tasks vm_name policy path m h = elim (Bool-cases (store.is_file path)) [
    | inl t ↦ rw t (ap (or_same m) (send_to_vm-HasWorker vm_name policy path m h))
    | inr f ↦ rw f (with_tasks-nil m)
  ]

  send_files-tasks :
      (vm_name policy : Text) (paths : List Text) (m : PolicyManager)
      → HasWorker m vm_name
      → send_files store vm_name policy paths m ≡ with_tasks m (file_tasks vm_name policy paths)
  unfolding send_files file_tasks
  send_files-tasks vm_name policy [] m h = with_tasks-nil m
  send_files-tasks vm_name policy (path ∷ paths) m h =
      let first =
        if store.is_file path
        then record { vm = vm_name; policy_name = policy; file = path } ∷ []
        else [] in
      ap (send_files store vm_name policy paths) (send_file-tasks vm_name policy path m h)
      ∙ (send_files-tasks vm_name policy paths (with_tasks m first) h
          ∙ with_tasks-twice m first (file_tasks vm_name policy paths))

  send_policy-tasks :
      (vm_name policy : Text) (m : PolicyManager)
      → HasWorker m vm_name
      → send_policy store vm_name policy m
        ≡ with_tasks m (policy_tasks m.policy_dir m.configs vm_name policy)
  unfolding send_policy
  send_policy-tasks vm_name policy m h =
      elim (Bool-cases (
        store.exists (join m.policy_dir policy)
        && contains (subscribers policy m.configs.policies) vm_name)) [
          | inl t ↦ rw t (
              send_files-tasks vm_name policy
                (entries_of (store.read_dir (join m.policy_dir policy))) m h)
          | inr f ↦ rw f (with_tasks-nil m)
        ]

  send_policies-tasks :
      (vm_name : Text) (policies : List (Text × PolicyConfigPolicy)) (m : PolicyManager)
      → HasWorker m vm_name
      → send_policies store vm_name policies m
        ≡ with_tasks m (machine_tasks m.policy_dir m.configs vm_name policies)
  unfolding send_policies machine_tasks
  send_policies-tasks vm_name [] m h = with_tasks-nil m
  send_policies-tasks vm_name (policy ∷ policies) m h =
      let first = policy_tasks m.policy_dir m.configs vm_name policy.0 in
      ap (send_policies store vm_name policies) (send_policy-tasks vm_name policy.0 m h)
      ∙ (send_policies-tasks vm_name policies (with_tasks m first) h
          ∙ with_tasks-twice m first (machine_tasks m.policy_dir m.configs vm_name policies))

  update_vms-tasks :
      (vms : List Text) (m : PolicyManager)
      → All (HasWorker m) vms
      → update_vms store vms m ≡ with_tasks m (refresh_tasks m.policy_dir m.configs vms)
  unfolding update_vms refresh_tasks send_all_policies
  update_vms-tasks [] m h = with_tasks-nil m
  update_vms-tasks (vm ∷ vms) m h =
      let first = machine_tasks m.policy_dir m.configs vm m.configs.policies in
      ap (update_vms store vms) (send_policies-tasks vm m.configs.policies m h.0)
      ∙ (update_vms-tasks vms (with_tasks m first) h.1
          ∙ with_tasks-twice m first (refresh_tasks m.policy_dir m.configs vms))

all_contained :
    (used vms : List Text)
    → ((vm : Text) → contains vms vm ≡ true → contains used vm ≡ true)
    → All (λ vm. contains used vm ≡ true) vms
unfolding contains
all_contained used [] f = tt
all_contained used (vm ∷ vms) f = (
  f vm (ap (λ b. b || contains vms vm) (eq_refl vm)),
  all_contained used vms (λ x h. f x (or_right (vm == x) (contains vms x) h)),
)
  where
    or_right : (a b : Bool) → b ≡ true → (a || b) ≡ true
    or_right a b h = ground arith

-- A full refresh of a manager queues, for each of its workers' machines in turn, an update for each
-- file in the directory of each policy that the machine is subscribed to, and nothing else.
pub force_update_all_vms-tasks :
    (store : Store) (m : PolicyManager)
    → force_update_all_vms store m
      ≡ with_tasks m (refresh_tasks store m.policy_dir m.configs m.workers)
unfolding force_update_all_vms
force_update_all_vms-tasks store m =
    update_vms-tasks store m.workers m (all_contained m.workers m.workers (λ vm h. h))
