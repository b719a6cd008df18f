-- ===== src/Policy/Workers.antt =====
-- crates/policyadmin/src/policy_manager.rs: the workers of the machines of a configuration.
use ghaf_givc.Prelude.{
  ◌≡◌, refl, ◌∙◌, inl, inr, true, List, [], ◌∷◌, ◌++◌, arith, Bool-cases, ◌==◌, eq_refl, list_eq,
  option_eq, nat_eq, All,
}
use ghaf_givc.Text.{Text, contains}
use ghaf_givc.Policy.{
  PolicyConfigPolicy, PolicyConfig, PolicyManager, add_worker, add_workers, vm_names, new_manager,
  subscribers,
}

-- The machine has a worker.
abbrev pub HasWorker : PolicyManager → Text → Type 0
HasWorker manager vm = contains manager.workers vm ≡ true

-- Nothing but the workers differs, and none of them is gone.
pub record Extends (manager extended : PolicyManager) : Type 0 where
  pub same_dir : extended.policy_dir ≡ manager.policy_dir
  pub same_configs : extended.configs ≡ manager.configs
  pub same_queue : extended.queued ≡ manager.queued
  pub kept : (vm : Text) → HasWorker manager vm → HasWorker extended vm

add_worker-HasWorker : (vm : Text) (manager : PolicyManager) → HasWorker (add_worker vm manager) vm
unfolding add_worker contains
add_worker-HasWorker vm manager = elim (Bool-cases (contains manager.workers vm)) [
  | inl t ↦ rw (t, add_worker) t
  | inr f ↦ rw (f, eq_refl vm) refl
]

add_worker-Extends : (vm : Text) (manager : PolicyManager) → Extends manager (add_worker vm manager)
unfolding add_worker contains
add_worker-Extends vm manager = elim (Bool-cases (contains manager.workers vm)) [
  | inl t ↦
      rw t (record { same_dir = refl; same_configs = refl; same_queue = refl; kept = λ v h. h })
  | inr f ↦ rw f (record {
    same_dir = refl;
    same_configs = refl;
    same_queue = refl;
    kept = λ v h. rw h (ground arith);
  })
]

add_workers-Extends :
    (vms : List Text) (manager : PolicyManager) → Extends manager (add_workers vms manager)
unfolding add_workers
add_workers-Extends [] manager = record {
  same_dir = refl;
  same_configs = refl;
  same_queue = refl;
  kept = λ v h. h;
}
add_workers-Extends (vm ∷ vms) manager =
    let first = add_worker-Extends vm manager in
    let rest = add_workers-Extends vms (add_worker vm manager) in
    record {
      same_dir = rest.same_dir ∙ first.same_dir;
      same_configs = rest.same_configs ∙ first.same_configs;
      same_queue = rest.same_queue ∙ first.same_queue;
      kept = λ v h. rest.kept v (first.kept v h);
    }

add_workers-HasWorker :
    (vms : List Text) (manager : PolicyManager) → All (HasWorker (add_workers vms manager)) vms
unfolding add_workers
add_workers-HasWorker [] manager = tt
add_workers-HasWorker (vm ∷ vms) manager = (
  (add_workers-Extends vms (add_worker vm manager)).kept vm (add_worker-HasWorker vm manager),
  add_workers-HasWorker vms (add_worker vm manager),
)

pub new_manager-HasWorker :
    (dir : Text) (configs : PolicyConfig)
    → All (HasWorker (new_manager dir configs)) (vm_names configs.policies)
unfolding new_manager
new_manager-HasWorker dir configs = add_workers-HasWorker (vm_names configs.policies) _

pub new_manager-Extends :
    (dir : Text) (configs : PolicyConfig)
    → Extends
        (record { policy_dir = dir; configs = configs; workers = []; queued = [] })
        (new_manager dir configs)
unfolding new_manager
new_manager-Extends dir configs = add_workers-Extends (vm_names configs.policies) _

All-append-left : (P : Text → Type 0) (xs ys : List Text) → All P (xs ++ ys) → All P xs
All-append-left P [] ys h = tt
All-append-left P (x ∷ xs) ys h = (h.0, All-append-left P xs ys h.1)

All-append-right : (P : Text → Type 0) (xs ys : List Text) → All P (xs ++ ys) → All P ys
All-append-right P [] ys h = h
All-append-right P (x ∷ xs) ys h = All-append-right P xs ys h.1

-- What holds of all machines holds of those of one policy.
pub All-subscribers :
    (P : Text → Type 0) (name : Text) (ps : List (Text × PolicyConfigPolicy))
    → All P (vm_names ps)
    → All P (subscribers name ps)
unfolding vm_names subscribers
All-subscribers P name [] h = tt
All-subscribers P name (p ∷ ps) h = elim (Bool-cases (p.0 == name)) [
  | inl t ↦ rw t (All-append-left P p.1.vms (vm_names ps) h)
  | inr f ↦ rw f (All-subscribers P name ps (All-append-right P p.1.vms (vm_names ps) h))
]
