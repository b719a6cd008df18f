-- ===== src/Policy/Repo/Attempts.antt =====
-- crates/policyadmin/src/policy_repo.rs: the attempts to clone the repository.
use ghaf_givc.Prelude.{
  ℕ, zero, suc, ◌+◌, ◌≤◌, ◌<◌, ◌≡◌, refl, true, false, none, some, [], ◌∷◌, ◌++◌, arith, leb,
  list_eq, option_eq, nat_eq, length, length-append, Error, Result, ok, err, panic, clone_failed,
}
use ghaf_givc.Policy.Repo.{
  Head, Git, Monitor, called, paused, cloned, clone_repo, clone_attempts, ensure_clone,
}

-- The attempts from a state, by the answers of git to the calls that they make, where so many more
-- may follow the first one: a clone whose head git gave is the new head, and there is no old one; a
-- failure is followed by a pause and the next attempt, and the last failure leaves the heads.
pub data Attempts (git : Git) : ℕ → Monitor → Result (Unit {0}) → Monitor → Type 0 where
  succeeds :
      {left : ℕ} {m : Monitor} (head : Head)
      → git.clone m.calls ≡ ok head
      → Attempts git left m (ok tt) (record m {
        state = record { new_head = some head; old_head = none };
        calls = m.calls + 1;
      })
  panics :
      {left : ℕ} {m : Monitor}
      → git.clone m.calls ≡ panic
      → Attempts git left m panic (record m { calls = m.calls + 1 })
  gives_up :
      {m : Monitor} (why : Error)
      → git.clone m.calls ≡ err why
      → Attempts git 0 m (err clone_failed) (record m { calls = m.calls + 1 })
  retries :
      {left : ℕ} {m v : Monitor} {r : Result (Unit {0})} (why : Error)
      → git.clone m.calls ≡ err why
      → Attempts git left (record m { calls = m.calls + 1; pauses = m.pauses ++ (300 ∷ []) }) r v
      → Attempts git (suc left) m r v

abbrev AttemptsEnd : Git → ℕ → ℕ → ℕ → Monitor → Type 0
AttemptsEnd git fuel retried left m =
    (r : Result (Unit {0})) × (v : Monitor) × (clone_attempts git fuel retried m ≡ some (r, v))
    × Attempts git left m r v

attempts-AttemptsEnd :
    (git : Git) (fuel retried left : ℕ) (m : Monitor)
    → retried + left ≡ 3
    → left < fuel
    → AttemptsEnd git fuel retried left m
unfolding clone_attempts clone_repo
attempts-AttemptsEnd git zero retried left m e h = absurd (omega arith)
attempts-AttemptsEnd git (suc fuel) retried left m e h =
    split left e h (git.clone m.calls) refl
      (λ l a b. attempts-AttemptsEnd git fuel (retried + 1) l (paused 300 (called m)) a b)
  where
    split :
        (left : ℕ)
        → retried + left ≡ 3
        → left < suc fuel
        → (r : Result Head) → git.clone m.calls ≡ r
        → ((l : ℕ)
            → retried + 1 + l ≡ 3
            → l < fuel
            → AttemptsEnd git fuel (retried + 1) l (paused 300 (called m)))
        → AttemptsEnd git (suc fuel) retried left m
    split left e h (ok head) f ih = (
      ok tt,
      (cloned git (ok head) (called m)).1,
      rw (clone_attempts, clone_repo, f, clone_repo, f) refl,
      succeeds head f,
    )
    split zero e h (err why) f ih =
        let last : leb (retried + 1) 3 ≡ false = grind arith in
        (
          err clone_failed,
          called m,
          rw (clone_attempts, clone_repo, f, last, clone_repo, f) refl,
          gives_up why f,
        )
    split (suc left) e h (err why) f ih =
        let more : leb (retried + 1) 3 ≡ true = grind arith in
        let (r, v, done, rest) = ih left (omega arith) (omega arith) in
        (r, v, rw (f, more, clone_attempts, clone_repo, f) done, retries why f rest)
    split left e h panic f ih =
        (panic, called m, rw (clone_attempts, clone_repo, f, clone_repo, f) refl, panics f)

-- The calls of git, the pauses and the manager after attempts of which so many may be repeated.
Attempts-calls :
    {git : Git} {left : ℕ} {m v : Monitor} {r : Result (Unit {0})}
    → Attempts git left m r v
    → (v.calls ≤ m.calls + (left + 1))
      × (length v.pauses ≤ length m.pauses + left)
      × (v.manager ≡ m.manager)
Attempts-calls (succeeds head f) = (omega arith, omega arith, refl)
Attempts-calls (panics f) = (omega arith, omega arith, refl)
Attempts-calls (gives_up why f) = (omega arith, omega arith, refl)
Attempts-calls {m = m} (retries why f rest) =
    let (calls, rests, same) = Attempts-calls rest in
    (omega arith, omega (arith, length-append m.pauses (300 ∷ [])), same)

-- The attempts to clone end, whatever git answers, and go by its answers: the first one with a head
-- ends them, and this is the new head; up to three failures are each followed by a pause of 300
-- seconds and another attempt; and the fourth failure is an error that leaves the heads as they
-- were. So there are at most four calls of git and three pauses, and the manager is not touched.
pub ensure_clone_total :
    (git : Git) (m : Monitor)
    → (r : Result (Unit {0})) × (v : Monitor) × (ensure_clone git m ≡ some (r, v))
      × Attempts git 3 m r v
      × (v.calls ≤ m.calls + 4)
      × (length v.pauses ≤ length m.pauses + 3)
      × (v.manager ≡ m.manager)
unfolding ensure_clone
ensure_clone_total git m =
    let (r, v, done, went) = attempts-AttemptsEnd git 5 0 3 m refl (omega arith) in
    let (calls, rests, same) = Attempts-calls went in (r, v, done, went, calls, rests, same)
