-- ===== src/Image/Artifacts/Progress.antt =====
-- crates/ota-update/src/registry/oras.rs: the reports of the progress of a transfer.
use ghaf_givc.Prelude.{
  ℕ, zero, suc, ◌+◌, ◌-◌, ◌*◌, ◌/◌, ◌%◌, ◌^◌, ◌≤◌, ◌<◌, ◌≡◌, refl, sym, subst, ◌⊎◌, inl, inr,
  Option, none, some, List, [], ◌∷◌, arith, leb, if◌then◌else◌, Bool-cases, ◌==◌, list_eq,
  option_eq, nat_eq, All,
}
use native.Mathlib.Nat.{div-add-mod, mod-lt, lt_of_mul-lt-mul_right, mul-le-mul_right}

pub record ProgressReporter : Type 0 where
  pub next_report_at : ℕ
  pub step : ℕ

abbrev pub new : ℕ → ProgressReporter
new step = record { next_report_at = step; step = step }

-- `u64::next_multiple_of`, where it does not overflow.
unfoldable pub next_multiple_of : ℕ → ℕ → ℕ
next_multiple_of n step = if n % step == 0 then n else n + (step - n % step)

-- The step of every reporter, 10 MiB.
abbrev pub progress_event_step : ℕ
progress_event_step = 10485760

unfoldable pub progress : ProgressReporter → ℕ → Option ℕ × ProgressReporter
progress r current =
    let next = next_multiple_of (current + 1) r.step in
    if leb r.next_report_at current
    then (some (next - r.step), record r { next_report_at = next })
    else (none, r)

abbrev pub with_report : Option ℕ → List ℕ → List ℕ
with_report none reports = reports
with_report (some reported) reports = reported ∷ reports

-- The reports of a transfer, by the lengths of its chunks.
unfoldable pub report_chunks : ProgressReporter → ℕ → List ℕ → List ℕ
report_chunks r transferred [] = []
report_chunks r transferred (chunk ∷ chunks) =
    let rest = report_chunks (progress r (transferred + chunk)).1 (transferred + chunk) chunks in
    with_report (progress r (transferred + chunk)).0 rest

abbrev pub total_of : List ℕ → ℕ
total_of [] = 0
total_of (chunk ∷ chunks) = chunk + total_of chunks

-- Each report is a multiple of the step, at least the amount that was due and at most the total;
-- the next is due a step later; and what is due after the last one is more than the total.
abbrev pub IsPaced : ℕ → ℕ → ℕ → List ℕ → Type 0
IsPaced step due total [] = total < due
IsPaced step due total (x ∷ xs) =
    (due ≤ x) × (x ≤ total) × ((k : ℕ) × (x ≡ k * step)) × IsPaced step (x + step) total xs

-- The report that is due, from the quotient and the remainder.
round_up :
    (current step q r : ℕ)
    → r < step
    → step * q + r ≡ current + 1
    → (k : ℕ) × ((if r == 0 then current + 1 else current + 1 + (step - r)) ≡ k * step + step)
      × (k * step ≤ current)
      × (current < k * step + step)
round_up current step zero zero small e = absurd (omega arith)
round_up current step (suc q) zero small e = (q, omega arith, omega arith, omega arith)
round_up current step q (suc r) small e = (q, grind arith, omega arith, omega arith)

next_multiple_of_sound :
    (current step : ℕ)
    → 0 < step
    → (k : ℕ) × (next_multiple_of (current + 1) step ≡ k * step + step)
      × (k * step ≤ current)
      × (current < k * step + step)
unfolding next_multiple_of
next_multiple_of_sound current step positive =
    let n = current + 1 in
    round_up current step (n / step) (n % step) (mod-lt n positive) (div-add-mod n step)

-- A multiple of the step that is not above the amount is not above the last one.
below_last :
    (j k step current : ℕ) → j * step ≤ current → current < k * step + step → j * step ≤ k * step
below_last j k step current due last =
    let one_more : j * step < suc k * step = omega arith in
    let smaller = lt_of_mul-lt-mul_right step one_more in mul-le-mul_right step (omega arith)

-- Either no report is due, or the last multiple of the step that the amount has reached is
-- reported, and the next one is due.
progress_cases :
    (r : ProgressReporter) (current : ℕ)
    → 0 < r.step
    → ((progress r current ≡ (none, r)) × (current < r.next_report_at))
      ⊎ ((k : ℕ) × (progress r current
            ≡ (some (k * r.step), record { next_report_at = k * r.step + r.step; step = r.step }))
          × (r.next_report_at ≤ current)
          × (k * r.step ≤ current)
          × (current < k * r.step + r.step))
unfolding progress
progress_cases r current positive =
    let (k, up, reached, last) = next_multiple_of_sound current r.step positive in
    elim (Bool-cases (leb r.next_report_at current)) [
      | inl due ↦
          let back : k * r.step + r.step - r.step ≡ k * r.step = omega arith in
          inr (k, rw (due, up, back) refl, grind arith, reached, last)
      | inr early ↦ inl (rw early refl, grind arith)
    ]

report_chunks-IsPaced :
    (r : ProgressReporter) (transferred : ℕ) (chunks : List ℕ)
    → 0 < r.step
    → (j : ℕ) × (r.next_report_at ≡ j * r.step)
    → transferred < r.next_report_at
    → IsPaced r.step r.next_report_at
        (transferred + total_of chunks)
        (report_chunks r transferred chunks)
unfolding report_chunks
report_chunks-IsPaced r transferred [] positive (j, due) before = omega arith
report_chunks-IsPaced r transferred (chunk ∷ chunks) positive (j, due) before =
    let current = transferred + chunk in
    let Paced : ℕ → Option ℕ × ProgressReporter → Type 0 = λ total p.
      IsPaced r.step r.next_report_at total (with_report p.0 (report_chunks p.1 current chunks)) in
    let total : current + total_of chunks ≡ transferred + (chunk + total_of chunks) = omega arith in
    subst (λ n. Paced n (progress r current)) total
      (elim (progress_cases r current positive) [
        | inl (e, early) ↦
            subst (Paced (current + total_of chunks)) (sym e)
              (report_chunks-IsPaced r current chunks positive (j, due) early)
        | inr (k, e, reached, below, last) ↦
            let next : ProgressReporter = record {
              next_report_at = k * r.step + r.step;
              step = r.step;
            } in
            subst (Paced (current + total_of chunks)) (sym e) (
              subst (λ d. d ≤ k * r.step) (sym due)
                  (below_last j k r.step current (subst (λ d. d ≤ current) due reached) last),
              omega arith,
              (k, refl),
              report_chunks-IsPaced next current chunks positive (suc k, omega arith) last,
            )
      ])

-- The next report that is due, a step after this one, is a number of the source's width.
abbrev FitsNext : ℕ → ℕ → Type 0
FitsNext step x = x + step < 2 ^ 64

IsPaced-FitsNext :
    (step due total : ℕ) (xs : List ℕ)
    → total + step < 2 ^ 64
    → IsPaced step due total xs
    → All (FitsNext step) xs
IsPaced-FitsNext step due total [] fits p = tt
IsPaced-FitsNext step due total (x ∷ xs) fits (_, below, _, rest) =
    (omega arith, IsPaced-FitsNext step (x + step) total xs fits rest)

-- Of a transfer whose total and one step more fit 64 bits, a new reporter with a positive step
-- reports multiples of the step alone, each at least a step after the one before it and not above
-- the total; the last one is less than a step below the total; and what is due next always fits.
pub report_chunks-new :
    (step : ℕ) (chunks : List ℕ)
    → 0 < step
    → total_of chunks + step < 2 ^ 64
    → IsPaced step step (total_of chunks) (report_chunks (new step) 0 chunks)
      × All (FitsNext step) (report_chunks (new step) 0 chunks)
report_chunks-new step chunks positive fits =
    let reports = report_chunks (new step) 0 chunks in
    let all : 0 + total_of chunks ≡ total_of chunks = omega arith in
    let paced : IsPaced step step (total_of chunks) reports =
      subst (λ total. IsPaced step step total reports) all
        (report_chunks-IsPaced (new step) 0 chunks positive (1, omega arith) positive) in
    (paced, IsPaced-FitsNext step step (total_of chunks) reports fits paced)
