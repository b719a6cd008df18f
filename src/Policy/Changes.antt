-- ===== src/Policy/Changes.antt =====
-- crates/policyadmin/src/policy_manager.rs: the updates that a change set queues.
use ghaf_givc.Prelude.{
  ◌≡◌, refl, sym, ap, ap₂, subst, ◌∙◌, inl, inr, Bool, false, Option, none, some, List, [], ◌∷◌,
  ◌++◌, if◌then◌else◌, Bool-cases, ◌==◌, list_eq, option_eq, nat_eq, All, filter_by, ok, err,
  no_worker,
}
use mathlib.Core.List.{append_assoc, append-nil}
use ghaf_givc.Text.{Text, lines, trim, join, contains}
use ghaf_givc.Policy.{
  PolicyConfig, PolicyManager, Task, new_manager, send_to_vm, send_to_vms, or_same, subscribers,
  parse_line, full_path, process_change, process_line, process_lines, process_changeset, vm_names,
}
use ghaf_givc.Policy.Workers.{
  HasWorker, new_manager-HasWorker, new_manager-Extends, All-subscribers,
}

-- One update for each machine.
unfoldable pub tasks : Text → Text → List Text → List Task
tasks policy_name file [] = []
tasks policy_name file (vm ∷ vms) =
    record { vm = vm; policy_name = policy_name; file = file } ∷ tasks policy_name file vms

abbrev pub with_tasks : PolicyManager → List Task → PolicyManager
with_tasks manager ts = record manager { queued = manager.queued ++ ts }

pub send_to_vm-HasWorker :
    (vm policy_name file : Text) (manager : PolicyManager)
    → HasWorker manager vm
    → send_to_vm vm policy_name file manager
      ≡ ok (with_tasks manager (record { vm = vm; policy_name = policy_name; file = file } ∷ []))
unfolding send_to_vm
send_to_vm-HasWorker vm policy_name file manager h = rw h refl

send_to_vm-lost :
    (vm policy_name file : Text) (manager : PolicyManager)
    → contains manager.workers vm ≡ false
    → send_to_vm vm policy_name file manager ≡ err no_worker
unfolding send_to_vm
send_to_vm-lost vm policy_name file manager h = rw h refl

pub send_to_vms-HasWorker :
    (vms : List Text) (policy_name file : Text) (manager : PolicyManager)
    → All (HasWorker manager) vms
    → send_to_vms vms policy_name file manager ≡ with_tasks manager (tasks policy_name file vms)
unfolding send_to_vms tasks
send_to_vms-HasWorker [] policy_name file manager h = rw append-nil refl
send_to_vms-HasWorker (vm ∷ vms) policy_name file manager h =
    let task : Task = record { vm = vm; policy_name = policy_name; file = file } in
    rw (send_to_vm-HasWorker vm policy_name file manager h.0) (
      send_to_vms-HasWorker vms policy_name file (with_tasks manager (task ∷ [])) h.1
      ∙ ap (λ q. record manager { queued = q })
          (append_assoc manager.queued (task ∷ []) (tasks policy_name file vms)))

-- A machine without a worker gets nothing, and the others get their updates.
pub send_to_vms-with_tasks :
    (vms : List Text) (policy_name file : Text) (manager : PolicyManager)
    → send_to_vms vms policy_name file manager
      ≡ with_tasks manager (tasks policy_name file (filter_by (contains manager.workers) vms))
unfolding send_to_vms tasks filter_by
send_to_vms-with_tasks [] policy_name file manager = rw append-nil refl
send_to_vms-with_tasks (vm ∷ vms) policy_name file manager =
    let task : Task = record { vm = vm; policy_name = policy_name; file = file } in
    let rest = filter_by (contains manager.workers) vms in
    elim (Bool-cases (contains manager.workers vm)) [
      | inl t ↦
          ap (λ r. send_to_vms vms policy_name file (or_same manager r))
            (send_to_vm-HasWorker vm policy_name file manager t)
          ∙ (send_to_vms-with_tasks vms policy_name file (with_tasks manager (task ∷ []))
              ∙ (ap (λ q. record manager { queued = q })
                    (append_assoc manager.queued (task ∷ []) (tasks policy_name file rest))
                  ∙ ap
                      (λ b.
                        with_tasks manager (tasks policy_name file (if b then vm ∷ rest else rest)))
                      (sym t)))
      | inr f ↦
          ap (λ r. send_to_vms vms policy_name file (or_same manager r))
            (send_to_vm-lost vm policy_name file manager f)
          ∙ (send_to_vms-with_tasks vms policy_name file manager
              ∙ ap
                  (λ b. with_tasks manager (tasks policy_name file (if b then vm ∷ rest else rest)))
                  (sym f))
    ]

module _ (exists : Text → Bool) (dir : Text) (configs : PolicyConfig) where
  abbrev pub change_tasks : Option (Text × Text) → List Task
  change_tasks none = []
  change_tasks (some (policy_name, file_name)) =
      if exists (join (join dir policy_name) file_name)
      then tasks policy_name (join (join dir policy_name) file_name)
          (subscribers policy_name configs.policies)
      else []

  -- The updates that the lines ask for: an update for each machine of the policy that the line
  -- names, if the file is there.
  unfoldable pub wanted : List Text → List Task
  wanted [] = []
  wanted (line ∷ rest) =
      (if trim line == [] then [] else change_tasks (parse_line (trim line))) ++ wanted rest

-- Every machine of the manager's configuration has its worker.
abbrev IsReady : PolicyManager → Type 0
IsReady manager = All (HasWorker manager) (vm_names manager.configs.policies)

process_change-with_tasks :
    (exists : Text → Bool) (manager : PolicyManager) (change : Option (Text × Text))
    → IsReady manager
    → process_change exists manager change
      ≡ with_tasks manager (change_tasks exists manager.policy_dir manager.configs change)
unfolding full_path
process_change-with_tasks exists manager none h = rw append-nil refl
process_change-with_tasks exists manager (some (policy_name, file_name)) h =
    let file = join (join manager.policy_dir policy_name) file_name in
    elim (Bool-cases (exists file)) [
      | inl t ↦ rw t (
          send_to_vms-HasWorker (subscribers policy_name manager.configs.policies) policy_name file
            manager (All-subscribers (HasWorker manager) policy_name manager.configs.policies h))
      | inr f ↦ rw (f, append-nil) refl
    ]

abbrev line_tasks : (Text → Bool) → PolicyManager → Text → List Task
line_tasks exists manager line =
    if trim line == []
    then []
    else change_tasks exists manager.policy_dir manager.configs (parse_line (trim line))

process_line-with_tasks :
    (exists : Text → Bool) (line : Text) (manager : PolicyManager)
    → IsReady manager
    → process_line exists line manager ≡ with_tasks manager (line_tasks exists manager line)
unfolding process_line
process_line-with_tasks exists line manager h = elim (Bool-cases (trim line == [])) [
  | inl t ↦ rw (t, append-nil) refl
  | inr f ↦ rw f (process_change-with_tasks exists manager (parse_line (trim line)) h)
]

process_lines-with_tasks :
    (exists : Text → Bool) (ls : List Text) (manager : PolicyManager)
    → IsReady manager
    → process_lines exists ls manager
      ≡ with_tasks manager (wanted exists manager.policy_dir manager.configs ls)
unfolding process_lines wanted
process_lines-with_tasks exists [] manager h = rw append-nil refl
process_lines-with_tasks exists (line ∷ rest) manager h =
    rw (process_line-with_tasks exists line manager h) (
      process_lines-with_tasks exists rest (with_tasks manager (line_tasks exists manager line)) h
      ∙ ap (λ q. record manager { queued = q })
          (append_assoc manager.queued (line_tasks exists manager line)
            (wanted exists manager.policy_dir manager.configs rest)))

-- A new manager that processes a change set queues exactly the updates that its lines ask for, in
-- their order: no update is lost for want of a worker.
pub process_changeset-wanted :
    (exists : Text → Bool) (dir : Text) (configs : PolicyConfig) (changeset : Text)
    → (process_changeset exists changeset (new_manager dir configs)).queued
      ≡ wanted exists dir configs (lines changeset)
unfolding process_changeset
process_changeset-wanted exists dir configs changeset =
    let manager = new_manager dir configs in
    let x = new_manager-Extends dir configs in
    let ready : IsReady manager =
      subst (λ c. All (HasWorker manager) (vm_names c.policies)) (sym x.same_configs)
        (new_manager-HasWorker dir configs) in
    ap (λ m. m.queued) (process_lines-with_tasks exists (lines changeset) manager ready)
    ∙ (ap (λ q. q ++ wanted exists manager.policy_dir manager.configs (lines changeset))
          x.same_queue
        ∙ ap₂ (λ d c. wanted exists d c (lines changeset)) x.same_dir x.same_configs)
