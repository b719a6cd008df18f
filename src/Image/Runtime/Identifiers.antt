-- ===== src/Image/Runtime/Identifiers.antt =====
-- crates/ota-update/src/image/runtime.rs: identifiers of empty slots.
use ghaf_givc.Prelude.{
  ℕ, zero, suc, ◌+◌, ◌≤◌, ◌<◌, ◌≡◌, sym, ◌⊎◌, inl, inr, false, List, [], ◌∷◌, arith, Bool-cases,
  list_eq, option_eq, nat_eq, length, ok,
}
use ghaf_givc.Text.{Text, decimal, decimal_injective, contains, AllUsed, AllUsed-cons, used_enough}
use ghaf_givc.Image.Group.{SlotGroup}
use ghaf_givc.Image.Runtime.{Runtime, used_ids, first_free, allocate_empty_identifier}

-- A number from `i` on whose digits are not among the used identifiers.
pub record IsFree (i left : ℕ) (used : List Text) (id : Text) : Type 0 where
  pub number : ℕ
  pub from : i ≤ number
  pub below : number < i + left
  pub digits : id ≡ decimal number
  pub unused : contains used id ≡ false

first_free-IsFree :
    (left i : ℕ) (used : List Text) {id : Text}
    → first_free left i used ≡ ok id
    → IsFree i left used id
unfolding first_free
first_free-IsFree zero i used e = ground arith
first_free-IsFree (suc left) i used {id} e = elim (Bool-cases (contains used (decimal i))) [
  | inl taken ↦
      let f = first_free-IsFree left (i + 1) used (rw (taken, first_free) at e) in
      record {
        number = f.number;
        from = omega arith;
        below = omega arith;
        digits = f.digits;
        unused = f.unused;
      }
  | inr free ↦
      let same : decimal i ≡ id = ground arith in
      record {
        number = i;
        from = omega arith;
        below = omega arith;
        digits = sym same;
        unused = rw (← same) free;
      }
]

first_free_cases :
    (left i : ℕ) (used : List Text)
    → ((id : Text) × (first_free left i used ≡ ok id)) ⊎ AllUsed decimal left i used
unfolding first_free
first_free_cases zero i used = inr (unfold AllUsed in λ n from below. absurd (omega arith))
first_free_cases (suc left) i used = elim (Bool-cases (contains used (decimal i))) [
  | inl taken ↦ elim (first_free_cases left (i + 1) used) [
    | inl (id, e) ↦ inl (id, rw (taken, first_free) e)
    | inr all ↦ inr (AllUsed-cons decimal left i used taken all)
  ]
  | inr free ↦ inl (decimal i, rw (free, first_free))
]

length-used_ids : (gs : List SlotGroup) → length (used_ids gs) ≤ length gs
unfolding used_ids
length-used_ids [] = omega arith
length-used_ids (g ∷ gs) = ground (arith, length-used_ids gs)

pub allocate_empty_identifier-IsFree :
    (rt : Runtime) {id : Text}
    → allocate_empty_identifier rt ≡ ok id
    → IsFree 0 100 (used_ids rt.slotgroups) id
unfolding allocate_empty_identifier
allocate_empty_identifier-IsFree rt e = first_free-IsFree 100 0 (used_ids rt.slotgroups) e

-- With fewer than a hundred slot groups an identifier is allocated: the decimal digits of a number
-- below a hundred, which no empty group bears.
pub allocate_empty_identifier_total :
    (rt : Runtime)
    → length rt.slotgroups < 100
    → (id : Text) × (allocate_empty_identifier rt ≡ ok id)
      × IsFree 0 100 (used_ids rt.slotgroups) id
unfolding allocate_empty_identifier
allocate_empty_identifier_total rt h = elim (first_free_cases 100 0 (used_ids rt.slotgroups)) [
  | inl (id, e) ↦ (id, e, first_free-IsFree 100 0 (used_ids rt.slotgroups) e)
  | inr all ↦ absurd (
      omega (
        arith,
        used_enough decimal decimal_injective 100 0 (used_ids rt.slotgroups) all,
        length-used_ids rt.slotgroups,
      ))
]
