-- ===== src/Image/Plan/Prepared.antt =====
-- crates/ota-update/src/image/runtime.rs: the commands that prepare the volumes of an installation.
use ghaf_givc.Prelude.{
  ℕ, ◌≤◌, ◌<◌, ◌≡◌, refl, sym, ap, ap₂, subst, ◌∙◌, ◌⊎◌, inl, inr, false, Option, none, some, List,
  [], ◌∷◌, ◌++◌, arith, ltb, Bool-cases, Option-cases, list_eq, option_eq, nat_eq, any, find,
  Member, find_sound, ok, >>=-eq-ok,
}
use ghaf_givc.Text.{Text, codes, decimal}
use ghaf_givc.Image.Version.{Version}
use ghaf_givc.Image.Volume.{Volume}
use ghaf_givc.Image.Pipeline.{Pipeline}
use ghaf_givc.Image.Slot.{Slot, root, verity, empty, known, name_text}
use ghaf_givc.Image.Group.{SlotGroup, is_active}
use ghaf_givc.Image.Manifest.{Manifest, to_version}
use ghaf_givc.Image.Runtime.{
  Runtime, selected, resize_step, resize_steps_for_slot, lvcreate, create_empty_slot, select_with,
  choose_empty, select_update_slot, is_installed, is_suitable,
}
use ghaf_givc.Image.Runtime.Creation.{IsNewPair, create_empty_slot-IsNewPair}
use ghaf_givc.Image.Runtime.Selection.{suitable_parts, attach_uki-eq-ok, select_missing}
use ghaf_givc.Image.Plan.Commands.{runs}

abbrev pub resizes : Volume → ℕ → Pipeline
resizes volume size = runs (codes "lvresize") (
    codes "-f"
    ∷ codes "-L"
    ∷ (decimal size ++ codes "b")
    ∷ (volume.vg_name ++ (codes "/" ++ volume.lv_name))
    ∷ [])

abbrev pub creates : ℕ → Text → Text → Pipeline
creates size name vg = runs (codes "lvcreate") (
    codes "--yes"
    ∷ codes "--wipesignatures"
    ∷ codes "y"
    ∷ codes "-L"
    ∷ (decimal size ++ codes "b")
    ∷ codes "-n"
    ∷ name
    ∷ vg
    ∷ [])

lvcreate_lem : (size : ℕ) (name vg : Text) → lvcreate size name vg ≡ creates size name vg
unfolding lvcreate
lvcreate_lem size name vg = refl

-- A volume that is known to be smaller than its image is resized, and no other one.
abbrev pub Grows : Volume → Option ℕ → List Pipeline → Type 0
Grows volume needed steps =
    ((size wanted : ℕ) × (volume.lv_size_bytes ≡ some size)
      × (needed ≡ some wanted)
      × (size < wanted)
      × (steps ≡ resizes volume wanted ∷ []))
    ⊎ ((steps ≡ [])
        × ((size wanted : ℕ)
            → volume.lv_size_bytes ≡ some size
            → needed ≡ some wanted
            → wanted ≤ size))

resize_step-Grows :
    (s : Slot) (needed : Option ℕ) → Grows s.volume needed (resize_step (some s) needed)
resize_step-Grows s none = inr (refl, λ size wanted e f. absurd (cc f))
resize_step-Grows s (some wanted) = elim (Option-cases s.volume.lv_size_bytes) [
  | inl n ↦ inr (rw n refl, λ size w e f. absurd (cc (n, e)))
  | inr (size, e) ↦ elim (Bool-cases (ltb size wanted)) [
    | inl t ↦ inl (size, wanted, e, refl, grind arith, rw (e, t) refl)
    | inr f ↦ inr (
      rw (e, f) refl,
      λ size' w e' f'.
          let same : size ≡ size' = cc (sym e ∙ e') in
          let wanted_is : wanted ≡ w = cc f' in rw (← same, ← wanted_is) (grind arith),
    )
  ]
]

-- The volumes are those of a group that is not active, each grown if it has to be; or they are new
-- ones, which are created.
pub data IsPrepared (rt : Runtime) (m : Manifest) (slot : SlotGroup) (pre : List Pipeline)
    : Type 0 where
  grown :
      (g : SlotGroup) (r v : Slot) (root_steps verity_steps : List Pipeline)
      → Member g rt.slotgroups
      → is_active g rt.kernel ≡ false
      → g.root ≡ some r
      → g.verity ≡ some v
      → slot.root ≡ some r
      → slot.verity ≡ some v
      → Grows r.volume m.store.unpacked_size root_steps
      → Grows v.volume m.verity.unpacked_size verity_steps
      → pre ≡ root_steps ++ verity_steps
      → IsPrepared rt m slot pre
  created :
      (pair : IsNewPair rt m slot.root slot.verity pre)
      → pre
        ≡ creates pair.root_size
            (name_text root (empty (known pair.id)))
            pair.active_root.volume.vg_name
          ∷ creates pair.verity_size
              (name_text verity (empty (known pair.id)))
              pair.active_root.volume.vg_name
          ∷ []
      → IsPrepared rt m slot pre

grown-IsPrepared :
    (rt : Runtime) (m : Manifest) (target : Version) (g slot : SlotGroup) (pre : List Pipeline)
    → find (is_suitable rt.kernel) rt.slotgroups ≡ some g
    → select_with target g (resize_steps_for_slot g m) ≡ ok (selected slot pre)
    → IsPrepared rt m slot pre
unfolding resize_steps_for_slot
grown-IsPrepared rt m target g slot pre f e =
    let (member, suitable) = find_sound (is_suitable rt.kernel) rt.slotgroups f in
    let (r, v, p, q, _, _, idle) = suitable_parts rt g suitable in
    let (same, pre_is) = attach_uki-eq-ok g target {slot = slot} e in
    grown g r v (resize_step (some r) m.store.unpacked_size)
      (resize_step (some v) m.verity.unpacked_size) member idle p q
      (ap (λ (s : SlotGroup). s.root) same ∙ p) (ap (λ (s : SlotGroup). s.verity) same ∙ q)
      (resize_step-Grows r m.store.unpacked_size) (resize_step-Grows v m.verity.unpacked_size)
      (sym pre_is
        ∙ ap₂ (λ a b. resize_step a m.store.unpacked_size ++ resize_step b m.verity.unpacked_size) p
            q)

created-IsPrepared :
    (rt : Runtime) (m : Manifest) (target : Version) (g slot : SlotGroup)
    (steps pre : List Pipeline)
    → create_empty_slot rt m ≡ ok (g, steps)
    → select_with target g steps ≡ ok (selected slot pre)
    → IsPrepared rt m slot pre
created-IsPrepared rt m target g slot steps pre c e =
    let (same, pre_is) = attach_uki-eq-ok g target {slot = slot} e in
    let made : IsNewPair rt m g.root g.verity steps = create_empty_slot-IsNewPair rt m c in
    let pair : IsNewPair rt m slot.root slot.verity pre =
      subst (λ l. IsNewPair rt m slot.root slot.verity l) pre_is
        (subst (λ (s : SlotGroup). IsNewPair rt m s.root s.verity steps) (sym same) made) in
    created pair (pair.steps ∙ ap₂ (λ a b. a ∷ b ∷ []) (lvcreate_lem _ _ _) (lvcreate_lem _ _ _))

choose_empty-IsPrepared :
    (rt : Runtime) (m : Manifest) (target : Version) (slot : SlotGroup) (pre : List Pipeline)
    → choose_empty rt m target ≡ ok (selected slot pre)
    → IsPrepared rt m slot pre
unfolding choose_empty
choose_empty-IsPrepared rt m target slot pre e =
    elim (Option-cases (find (is_suitable rt.kernel) rt.slotgroups)) [
      | inl n ↦
          let ((g, steps), c, e') =
            >>=-eq-ok (create_empty_slot rt m) _ (rw (n, choose_empty) at e) in
          created-IsPrepared rt m target g slot steps pre c e'
      | inr (g, f) ↦ grown-IsPrepared rt m target g slot pre f (rw (f, choose_empty) at e)
    ]

pub select_update_slot-IsPrepared :
    (rt : Runtime) (m : Manifest) (target : Version) (slot : SlotGroup) (pre : List Pipeline)
    → to_version m ≡ ok target
    → select_update_slot rt m ≡ ok (selected slot pre)
    → IsPrepared rt m slot pre
select_update_slot-IsPrepared rt m target slot pre t e =
    elim (Bool-cases (any (is_installed target) rt.slotgroups)) [
      | inl installed ↦ unfold select_update_slot in absurd (ground arith)
      | inr missing ↦
          choose_empty-IsPrepared rt m target slot pre
            (sym (select_missing rt m target t missing) ∙ e)
    ]
