-- ===== src/Policy/Repo.antt =====
-- crates/policyadmin/src/policy_repo.rs: the monitor of a git repository with the policies.
pub mod OneLine
pub mod Attempts
use ghaf_givc.Prelude.{
  ℕ, zero, suc, ◌+◌, Bool, true, false, Option, none, some, List, [], ◌∷◌, ◌++◌, leb, if◌then◌else◌,
  ◌==◌, list_eq, option_eq, nat_eq, Result, ok, err, panic, ◌>>=◌, context, clone_failed,
  old_head_missing, new_head_missing,
}
use ghaf_givc.Text.{Text, codes}
use ghaf_givc.Policy.{PolicyManager, process_changeset}
use ghaf_givc.Policy.Refresh.{Store, force_update_all_vms}

-- An object id.
abbrev pub Head : Type 0
Head = Text

pub record RepoState : Type 0 where
  pub new_head : Option Head
  pub old_head : Option Head

-- `Change` of the `gix` crate, with its location.
pub data Change : Type 0 where
  modification addition deletion : Text → Change
  rewrite : Text → Change

-- What git answers, by the number of the call: the head of the remote branch after a fetch, the
-- check-out of a commit, the head of a fresh clone, and the changes between two commits.
pub record Git : Type 0 where
  pub fetch : ℕ → Result Head
  pub checkout : ℕ → Head → Result (Unit {0})
  pub clone : ℕ → Result Head
  pub diff : Head → Head → Result (List Change)

-- The monitor: its state, the manager that it sends to, the number of its calls of git, the
-- time that it waits, and its pauses in seconds, the last one at the end.
pub record Monitor : Type 0 where
  pub state : RepoState
  pub manager : PolicyManager
  pub calls : ℕ
  pub wait_time : ℕ
  pub pauses : List ℕ

abbrev pub called : Monitor → Monitor
called m = record m { calls = m.calls + 1 }

abbrev pub paused : ℕ → Monitor → Monitor
paused seconds m = record m { pauses = m.pauses ++ (seconds ∷ []) }

abbrev pub kind_and_location : Change → Option (Text × Text)
kind_and_location (modification location) = some (codes "M", location)
kind_and_location (addition location) = some (codes "A", location)
kind_and_location (deletion location) = some (codes "D", location)
kind_and_location (rewrite location) = none

-- `write!` appends to the text so far.
abbrev pub change_text : Option (Text × Text) → Text
change_text none = []
change_text (some (kind, location)) = kind ++ (b' ' ∷ location)

unfoldable pub changes_text : List Change → Text
changes_text [] = []
changes_text (c ∷ cs) = change_text (kind_and_location c) ++ changes_text cs

module _ (git : Git) where
  abbrev cloned : Result Head → Monitor → Result (Unit {0}) × Monitor
  cloned (ok head) m =
      (ok tt, record m { state = record { new_head = some head; old_head = none } })
  cloned (err e) m = (err e, m)
  cloned panic m = (panic, m)

  unfoldable pub clone_repo : Monitor → Result (Unit {0}) × Monitor
  clone_repo m = cloned (git.clone m.calls) (called m)

  -- The loop of the attempts, for as many rounds as the fuel gives; `none` where it runs out.
  unfoldable pub clone_attempts : ℕ → ℕ → Monitor → Option (Result (Unit {0}) × Monitor)
  clone_attempts zero retries m = none
  clone_attempts (suc fuel) retries m =
      let rest = clone_attempts fuel (retries + 1) (paused 300 (clone_repo m).1) in
      elim (clone_repo m).0 [
        | ok _ ↦ some (ok tt, (clone_repo m).1)
        | err e ↦ if leb (retries + 1) 3 then rest else some (err clone_failed, (clone_repo m).1)
        | panic ↦ some (panic, (clone_repo m).1)
      ]

  -- Five rounds are more than the loop takes.
  unfoldable pub ensure_clone : Monitor → Option (Result (Unit {0}) × Monitor)
  ensure_clone m = clone_attempts 5 0 m

  abbrev moved : Head → Result (Unit {0}) → Monitor → Result Bool × Monitor
  moved remote_id (ok _) m = (
    ok true,
    record m { state = record { new_head = some remote_id; old_head = m.state.new_head } },
  )
  moved remote_id (err e) m = (err e, m)
  moved remote_id panic m = (panic, m)

  abbrev fetched : ℕ → Result Head → Monitor → Result Bool × Monitor
  fetched n (ok remote_id) m =
      if some remote_id == m.state.new_head
      then (ok false, m)
      else moved remote_id (git.checkout n remote_id) m
  fetched n (err e) m = (err e, m)
  fetched n panic m = (panic, m)

  unfoldable pub get_update : Monitor → Result Bool × Monitor
  get_update m = fetched m.calls (git.fetch m.calls) (called m)

  unfoldable pub get_change_set : RepoState → Result Text
  get_change_set state = do
    old ← context old_head_missing state.old_head
    new_id ← context new_head_missing state.new_head
    if old == new_id then ok [] else (git.diff old new_id >>= λ changes. ok (changes_text changes))

  -- What a round comes to: an error, which asks for a clone, the end of the task, or neither.
  pub data Outcome : Type 0 where
    update_err finished went_on : Outcome

  module _ (exists : Text → Bool) (store : Store) (poll_interval : ℕ) where
    abbrev apply_changes : Result Text → Monitor → Outcome × Monitor
    apply_changes (ok []) m = (went_on, record m { manager = force_update_all_vms store m.manager })
    apply_changes (ok (c ∷ changes)) m =
        (went_on, record m { manager = process_changeset exists (c ∷ changes) m.manager })
    apply_changes (err e) m = (update_err, m)
    apply_changes panic m = (finished, m)

    -- The match on the result of `get_update`.
    abbrev check_update : Result Bool × Monitor → Outcome × Monitor
    check_update (ok true, m) = apply_changes (get_change_set m.state) m
    check_update (ok false, m) = (if poll_interval == 0 then finished else went_on, m)
    check_update (err e, m) = (update_err, m)
    check_update (panic, m) = (finished, m)

    abbrev or_unchanged : Monitor → Option (Result (Unit {0}) × Monitor) → Monitor
    or_unchanged m none = m
    or_unchanged m (some (r, next)) = next

    -- The result of the clone is ignored, and all machines are refreshed.
    abbrev refreshed : Monitor → Monitor
    refreshed m = record m { manager = force_update_all_vms store m.manager }

    -- The rest of the round, and whether there is a next one.
    abbrev conclude_round : Outcome × Monitor → Bool × Monitor
    conclude_round (finished, m) = (false, m)
    conclude_round (update_err, m) =
        let next = refreshed (or_unchanged m (ensure_clone m)) in (true, paused next.wait_time next)
    conclude_round (went_on, m) =
        let next = record m { wait_time = poll_interval } in
        if poll_interval == 0 then (false, next) else (true, paused poll_interval next)

    unfoldable pub round : Monitor → Bool × Monitor
    round m = conclude_round (check_update (get_update m))
