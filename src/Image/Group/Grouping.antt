-- ===== src/Image/Group/Grouping.antt =====
-- crates/ota-update/src/image/group.rs: a round of each loop of `group_volumes`, as a relation.
use ghaf_givc.Prelude.{
  ◌≡◌, subst, ◌≢◌, ◌⊎◌, inl, inr, true, false, none, some, List, [], ◌∷◌, arith, Bool-cases,
  Option-cases, list_eq, option_eq, nat_eq, ok, >>=-eq-ok,
}
use ghaf_givc.Image.Slot.{Slot, root, verity}
use ghaf_givc.Image.Uki
use ghaf_givc.Image.Uki.{BootEntry}
use ghaf_givc.Image.Group.{
  SlotGroup, empty_group, matches_slot, matches_boot, attach_slot, add_slot, in_front, add_boot,
  second_uki,
}

-- The slot went into the first group that matches it, or into a new one at the end.
pub data Placed (s : Slot) : List SlotGroup → List SlotGroup → Type 0 where
  new : {g : SlotGroup} → attach_slot empty_group s ≡ ok g → Placed s [] (g ∷ [])
  found :
      {g g' : SlotGroup} {gs : List SlotGroup}
      → matches_slot g s ≡ true
      → attach_slot g s ≡ ok g'
      → Placed s (g ∷ gs) (g' ∷ gs)
  later :
      {g : SlotGroup} {gs gs' : List SlotGroup}
      → matches_slot g s ≡ false
      → Placed s gs gs'
      → Placed s (g ∷ gs) (g ∷ gs')

pub add_slot-Placed :
    (s : Slot) (gs : List SlotGroup) {gs' : List SlotGroup}
    → add_slot s gs ≡ ok gs'
    → Placed s gs gs'
unfolding add_slot
add_slot-Placed s [] {gs'} e =
    let (g, a, h) = >>=-eq-ok (attach_slot empty_group s) (λ g. ok (g ∷ [])) {b = gs'} e in
    subst (Placed s []) (cc) (new a)
add_slot-Placed s (g ∷ gs) {gs'} e = elim (Bool-cases (matches_slot g s)) [
  | inl m ↦
      let (g', a, h) =
        >>=-eq-ok (attach_slot g s) (λ g'. ok (g' ∷ gs)) {b = gs'} (rw (m, add_slot) at e) in
      subst (Placed s (g ∷ gs)) (cc) (found m a)
  | inr m ↦
      let (rest, a, h) = >>=-eq-ok (add_slot s gs) (in_front g) {b = gs'} (rw (m, add_slot) at e) in
      subst (Placed s (g ∷ gs)) (cc) (later m (add_slot-Placed s gs a))
]

-- The boot entry went into the first group that matches it, or into a new one at the end.
pub data Booted (b : BootEntry) : List SlotGroup → List SlotGroup → Type 0 where
  orphan : Booted b [] (record { root = none; verity = none; boot = some b } ∷ [])
  fitted :
      {g : SlotGroup} {gs : List SlotGroup}
      → matches_boot g b ≡ true
      → g.boot ≡ none
      → Booted b (g ∷ gs) (record g { boot = some b } ∷ gs)
  passed :
      {g : SlotGroup} {gs gs' : List SlotGroup}
      → matches_boot g b ≡ false
      → Booted b gs gs'
      → Booted b (g ∷ gs) (g ∷ gs')

second_uki-ne-ok : (b : BootEntry) (gs : List SlotGroup) → second_uki (Uki.version b) ≢ ok gs
second_uki-ne-ok b gs e = ground arith

pub add_boot-Booted :
    (b : BootEntry) (gs : List SlotGroup) {gs' : List SlotGroup}
    → add_boot b gs ≡ ok gs'
    → Booted b gs gs'
unfolding add_boot
add_boot-Booted b [] e = subst (Booted b []) (cc) orphan
add_boot-Booted b (g ∷ gs) {gs'} e = elim (Bool-cases (matches_boot g b)) [
  | inl m ↦ elim (Option-cases g.boot) [
    | inl free ↦ subst (Booted b (g ∷ gs)) (ground arith) (fitted m free)
    | inr (old, taken) ↦ absurd (second_uki-ne-ok b gs' (ground arith))
  ]
  | inr m ↦
      let (rest, a, h) = >>=-eq-ok (add_boot b gs) (in_front g) {b = gs'} (rw (m, add_boot) at e) in
      subst (Booted b (g ∷ gs)) (cc) (passed m (add_boot-Booted b gs a))
]

-- Where a slot may go, and what changes there.
pub attach_slot_cases :
    (g : SlotGroup) (s : Slot) {g' : SlotGroup}
    → attach_slot g s ≡ ok g'
    → (s.kind ≡ root) × (g.root ≡ none) × (g' ≡ record g { root = some s })
      ⊎ (s.kind ≡ verity) × (g.verity ≡ none) × (g' ≡ record g { verity = some s })
unfolding attach_slot
attach_slot_cases g s e = ground arith
