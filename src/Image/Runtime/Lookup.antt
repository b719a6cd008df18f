-- ===== src/Image/Runtime/Lookup.antt =====
-- crates/ota-update/src/image/runtime.rs: looking up the group of a version, and the active group.
use ghaf_givc.Prelude.{
  ◌≡◌, refl, ◌∙◌, inl, inr, Bool, false, Option, none, some, List, [], ◌∷◌, arith, Bool-cases,
  list_eq, option_eq, nat_eq, filter_by, Only, filter_by-Only, Error, ok, ◌>>=◌, context, >>=-eq-ok,
  slot_not_found, no_active_slot,
}
use ghaf_givc.Image.Version.{Version, version_eq, has_hash}
use ghaf_givc.Image.Group.{SlotGroup, is_active}
use ghaf_givc.Image.Runtime.{
  Runtime, exactly_one, find_exact_one_group, has_version, has_revision, find_by_revision,
  find_slot_group, active_slot, or_by_revision,
}

exactly_one-eq-some :
    (gs : List SlotGroup) {g : SlotGroup} → exactly_one gs ≡ ok (some g) → gs ≡ g ∷ []
exactly_one-eq-some [] e = cc
exactly_one-eq-some (h ∷ []) e = cc
exactly_one-eq-some (h ∷ k ∷ gs) e = cc

pub find_exact_one_group-Only :
    (rt : Runtime) (p : SlotGroup → Bool) {g : SlotGroup}
    → find_exact_one_group rt p ≡ ok (some g)
    → Only p g rt.slotgroups
unfolding find_exact_one_group
find_exact_one_group-Only rt p e = filter_by-Only p rt.slotgroups (exactly_one-eq-some _ e)

-- The group is the only one of the version; or no group has the version, it comes without a hash,
-- and the group is the only one of the revision that has a hash.
pub data Found (rt : Runtime) (v : Version) (g : SlotGroup) : Type 0 where
  exact : Only (has_version v) g rt.slotgroups → Found rt v g
  by_revision :
      has_hash v ≡ false
      → filter_by (has_version v) rt.slotgroups ≡ []
      → Only (has_revision v) g rt.slotgroups
      → Found rt v g

context-eq-ok : (x : Error) (o : Option SlotGroup) {g : SlotGroup} → context x o ≡ ok g → o ≡ some g
context-eq-ok x o e = ground arith

exactly_one-eq-none : (gs : List SlotGroup) → exactly_one gs ≡ ok none → gs ≡ []
exactly_one-eq-none [] e = refl
exactly_one-eq-none (h ∷ []) e = cc
exactly_one-eq-none (h ∷ k ∷ gs) e = cc

or_by_revision_sound :
    (rt : Runtime) (v : Version) (g : SlotGroup) (exact_one : Option SlotGroup)
    → find_exact_one_group rt (has_version v) ≡ ok exact_one
    → or_by_revision rt v exact_one ≡ ok g
    → Found rt v g
unfolding or_by_revision find_by_revision find_exact_one_group
or_by_revision_sound rt v g (some h) f e =
    exact (find_exact_one_group-Only rt (has_version v) (f ∙ ground arith))
or_by_revision_sound rt v g none f e = elim (Bool-cases (has_hash v)) [
  | inl hashed ↦ absurd (ground arith)
  | inr plain ↦
      let found_one : (find_exact_one_group rt (has_revision v) >>= context slot_not_found) ≡ ok g =
        rw plain at e in
      let (o, found, e') =
        >>=-eq-ok (find_exact_one_group rt (has_revision v)) (context slot_not_found) found_one in
      by_revision plain (exactly_one-eq-none _ f) (
        find_exact_one_group-Only rt (has_revision v)
          (rw (context-eq-ok slot_not_found o e') at found))
]

-- Whatever group the lookup of a version returns is the only one that has the version; or, if no
-- group has it and it comes without a hash, the only one of the revision that has a hash.
pub find_slot_group_sound :
    (rt : Runtime) (v : Version) (g : SlotGroup) → find_slot_group rt v ≡ ok g → Found rt v g
unfolding find_slot_group
find_slot_group_sound rt v g e =
    let (o, found, e') =
      >>=-eq-ok (find_exact_one_group rt (has_version v)) (or_by_revision rt v) e in
    or_by_revision_sound rt v g o found e'

-- The active slot is the only active group of the machine.
active_slot-Only :
    (rt : Runtime) (g : SlotGroup)
    → active_slot rt ≡ ok g
    → Only (λ h. is_active h rt.kernel) g rt.slotgroups
unfolding active_slot
active_slot-Only rt g e =
    let (o, found, e') =
      >>=-eq-ok (find_exact_one_group rt (λ h. is_active h rt.kernel)) (context no_active_slot) e in
    find_exact_one_group-Only rt (λ h. is_active h rt.kernel)
      (rw (context-eq-ok no_active_slot o e') at found)
