-- ===== src/Image/Plan/Remove.antt =====
-- crates/ota-update/src/image/plan.rs: the steps of a removal.
use ghaf_givc.Prelude.{
  ◌≡◌, refl, sym, ap₂, ◌∙◌, true, false, not, ◌&&◌, Option, none, some, ◌++◌, arith, is_some_and,
  ◌==◌, eq_iff, list_eq, option_eq, nat_eq, Only-passes, ok, ensure, >>=-eq-ok,
  cannot_remove_active,
}
use ghaf_givc.Text.{contains, Text, decimal-Lacks}
use ghaf_givc.Image.Version.{Version, version_eq, has_hash}
use ghaf_givc.Image.Slot.{Kind, empty, known, name_text, decode_status}
use ghaf_givc.Image.Slot.RoundTrip.{decode_status-name_text}
use ghaf_givc.Image.Group
use ghaf_givc.Image.Group.{SlotGroup, is_active}
use ghaf_givc.Image.Runtime.{Runtime, used_ids, find_slot_group}
use ghaf_givc.Image.Runtime.Identifiers.{IsFree, allocate_empty_identifier-IsFree}
use ghaf_givc.Image.Runtime.Lookup.{Found, exact, by_revision, find_slot_group_sound}
use ghaf_givc.Image.Plan.Commands.{
  for_part, unlinks, legacy_unlinks, empties, remove_boot_lem, remove_legacy_lem,
  rename_slot_to_empty_lem,
}
use ghaf_givc.Image.Plan.{Plan, remove, empty_id_for}

-- A group with a version has no empty identifier.
empty_id-none : (g : SlotGroup) (v : Version) → Group.version g ≡ some v → Group.empty_id g ≡ none
empty_id-none g v e = ground arith

-- A version was found, so the group has one.
Found-version :
    {rt : Runtime} {v : Version} {g : SlotGroup}
    → Found rt v g
    → (w : Version) × (Group.version g ≡ some w)
Found-version {v = v} {g = g} (exact o) = (v, (eq_iff (Group.version g) (some v)).0 (Only-passes o))
Found-version {v = v} {g = g} (by_revision h n o) = some_of (Group.version g) (Only-passes o)
  where
    some_of :
        (o : Option Version)
        → is_some_and (λ w. w.revision == v.revision && has_hash w) o ≡ true
        → (w : Version) × (o ≡ some w)
    some_of none e = cc
    some_of (some w) e = (w, refl)

-- Hence the identifier is a newly allocated one.
allocated :
    (rt : Runtime) (slot : SlotGroup) {id : Text}
    → empty_id_for rt (Group.empty_id slot) ≡ ok id
    → (w : Version) × (Group.version slot ≡ some w)
    → IsFree 0 100 (used_ids rt.slotgroups) id
unfolding empty_id_for
allocated rt slot c (w, e) = allocate_empty_identifier-IsFree rt (rw (empty_id-none slot w e) at c)

-- What a successful removal consists of.
pub record Removes (rt : Runtime) (v : Version) (plan : Plan) : Type 0 where
  pub slot : SlotGroup
  pub found : Found rt v slot
  pub inactive : is_active slot rt.kernel ≡ false
  pub id : Text
  pub unused : contains (used_ids rt.slotgroups) id ≡ false
  pub reads_back :
      (k : Kind) → decode_status (name_text k (empty (known id))) ≡ ok (k, empty (known id))
  pub steps : plan ≡ for_part unlinks slot.boot ++ (legacy_unlinks rt slot ++ empties slot id)

-- A removal names a group that is not active. Its commands unlink the group's boot entry and, of a
-- legacy group, the legacy entries, and rename the group's root and verity volumes to the names of an
-- empty root and an empty verity slot under an identifier that no empty group bears; these names read
-- back as those empty slots.
pub remove_sound :
    (rt : Runtime) (v : Version) (plan : Plan) → remove rt v ≡ ok plan → Removes rt v plan
unfolding remove
remove_sound rt v plan e =
    let (slot, f, e1) = >>=-eq-ok (find_slot_group rt v) _ e in
    let (_, a, e2) =
      >>=-eq-ok (ensure (not (is_active slot rt.kernel)) cannot_remove_active) _ e1 in
    let (id, c, e3) = >>=-eq-ok (empty_id_for rt (Group.empty_id slot)) _ e2 in
    let found = find_slot_group_sound rt v slot f in
    let free = allocated rt slot c (Found-version found) in
    record {
      slot = slot;
      found = found;
      inactive = ground arith;
      id = id;
      unused = free.unused;
      reads_back = λ k.
          decode_status-name_text k (empty (known id))
            (rw free.digits (decimal-Lacks b'_' free.number refl));
      steps =
          sym (cc e3)
          ∙ ap₂ (λ a b. a ++ b) (remove_boot_lem slot.boot)
              (ap₂ (λ a b. a ++ b) (remove_legacy_lem rt slot) (rename_slot_to_empty_lem slot id));
    }
