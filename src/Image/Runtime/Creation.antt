-- ===== src/Image/Runtime/Creation.antt =====
-- crates/ota-update/src/image/runtime.rs: the slot that `create_empty_slot` computes.
use ghaf_givc.Prelude.{
  ℕ, ◌≡◌, refl, sym, ap, ap₂, ◌∙◌, inl, inr, false, Option, none, some, List, [], ◌∷◌, arith,
  Option-cases, list_eq, option_eq, nat_eq, Error, ok, context, >>=-eq-ok, active_without_root,
  active_without_verity,
}
use ghaf_givc.Text.{Text, codes, decimal-Lacks, Lacks}
use ghaf_givc.Image.Version.{version_eq}
use ghaf_givc.Image.Volume.{Volume}
use ghaf_givc.Image.Pipeline.{Pipeline}
use ghaf_givc.Image.Slot.{
  Slot, Kind, root, verity, empty, known, kind_text, name_text, from_volumes,
}
use ghaf_givc.Image.Slot.RoundTrip.{decode_status-name_text}
use ghaf_givc.Image.Group.{SlotGroup}
use ghaf_givc.Image.Manifest.{Manifest}
use ghaf_givc.Image.Runtime.Identifiers.{allocate_empty_identifier-IsFree}
use ghaf_givc.Image.Runtime.{
  Runtime, used_ids, create_volume, create_empty_slot, or_size, lvcreate, active_slot,
  allocate_empty_identifier, contains,
}

abbrev volume_named : Text → Text → ℕ → Volume
volume_named vg lv_name size = record {
  lv_name = lv_name;
  vg_name = vg;
  lv_attr = none;
  lv_size_bytes = some size;
}

-- A new volume is read back as an empty slot that bears the identifier.
create_volume_lem :
    (vg id : Text) (k : Kind) (wanted current : Option ℕ) (size : ℕ)
    → Lacks b'_' id
    → or_size wanted current ≡ some size
    → create_volume vg id (kind_text k) wanted current
      ≡ ok (
        record {
          kind = k;
          status = empty (known id);
          volume = volume_named vg (name_text k (empty (known id))) size;
        },
        lvcreate size (name_text k (empty (known id))) vg,
      )
unfolding create_volume from_volumes
create_volume_lem vg id root wanted current size h e =
    rw (e, decode_status-name_text root (empty (known id)) h)
create_volume_lem vg id verity wanted current size h e =
    rw (e, decode_status-name_text verity (empty (known id)) h)

-- A new volume, and the slot that it is.
abbrev pub new_slot : Kind → Text → Text → ℕ → Slot
new_slot k vg id size = record {
  kind = k;
  status = empty (known id);
  volume = volume_named vg (name_text k (empty (known id))) size;
}

-- An unknown size is the only failure.
create_volume-eq-ok :
    (vg id : Text) (k : Kind) (wanted current : Option ℕ) {s : Slot} {p : Pipeline}
    → Lacks b'_' id
    → create_volume vg id (kind_text k) wanted current ≡ ok (s, p)
    → (size : ℕ) × (or_size wanted current ≡ some size)
      × (s ≡ new_slot k vg id size)
      × (p ≡ lvcreate size (name_text k (empty (known id))) vg)
create_volume-eq-ok vg id k wanted current {s} {p} h e =
    elim (Option-cases (or_size wanted current)) [
      | inl n ↦ unfold create_volume in absurd (ground arith)
      | inr (size, f) ↦
          let step = lvcreate size (name_text k (empty (known id))) vg in
          let pair : Slot × Pipeline = (new_slot k vg id size, step) in
          let other : Slot × Pipeline = (s, p) in
          let made : ok pair ≡ ok other =
            sym (create_volume_lem vg id k wanted current size h f) ∙ e in
          let same : pair ≡ other = cc made in
          (size, f, sym (ap (λ q. q.0) same), sym (ap (λ q. q.1) same))
    ]

-- A pair of new volumes: under an identifier that no empty group bears, in the volume group of the
-- active root, each as large as the manifest says or else as the active one of its kind.
pub record IsNewPair (rt : Runtime) (m : Manifest) (root_slot verity_slot : Option Slot)
    (pre : List Pipeline) : Type 0 where
  pub current : SlotGroup
  pub active_root : Slot
  pub active_verity : Slot
  pub id : Text
  pub root_size : ℕ
  pub verity_size : ℕ
  pub current_is : active_slot rt ≡ ok current
  pub root_was : current.root ≡ some active_root
  pub verity_was : current.verity ≡ some active_verity
  pub unused : contains (used_ids rt.slotgroups) id ≡ false
  pub root_size_is : or_size m.store.unpacked_size active_root.volume.lv_size_bytes ≡ some root_size
  pub verity_size_is :
      or_size m.verity.unpacked_size active_verity.volume.lv_size_bytes ≡ some verity_size
  pub root_is : root_slot ≡ some (new_slot root active_root.volume.vg_name id root_size)
  pub verity_is : verity_slot ≡ some (new_slot verity active_root.volume.vg_name id verity_size)
  pub steps :
      pre
      ≡ lvcreate root_size (name_text root (empty (known id))) active_root.volume.vg_name
        ∷ lvcreate verity_size (name_text verity (empty (known id))) active_root.volume.vg_name
        ∷ []

ok-eq-ok : {A : Type 0} (a b : A) → ok a ≡ ok b → a ≡ b
ok-eq-ok a b e = cc e

context-eq-ok :
    {A : Type 0} (why : Error) (o : Option A) {a : A} → context why o ≡ ok a → o ≡ some a
context-eq-ok why none e = cc
context-eq-ok why (some a) e = ap some (cc e)

pub create_empty_slot-IsNewPair :
    (rt : Runtime) (m : Manifest) {g : SlotGroup} {pre : List Pipeline}
    → create_empty_slot rt m ≡ ok (g, pre)
    → IsNewPair rt m g.root g.verity pre
unfolding create_empty_slot
create_empty_slot-IsNewPair rt m {g} {pre} e =
    let (current, active, e1) = >>=-eq-ok (active_slot rt) _ e in
    let (r0, has_root, e2) = >>=-eq-ok (context active_without_root current.root) _ e1 in
    let (v0, has_verity, e3) = >>=-eq-ok (context active_without_verity current.verity) _ e2 in
    let vg = r0.volume.vg_name in
    let (id, a, e4) = >>=-eq-ok (allocate_empty_identifier rt) _ e3 in
    let ((r, rp), b, e5) =
      >>=-eq-ok (create_volume vg id (codes "root") m.store.unpacked_size r0.volume.lv_size_bytes) _
        e4 in
    let ((v, vp), c, e6) =
      >>=-eq-ok
        (create_volume vg id (codes "verity") m.verity.unpacked_size v0.volume.lv_size_bytes) _
        e5 in
    let free = allocate_empty_identifier-IsFree rt a in
    let lacks : Lacks b'_' id = rw free.digits (decimal-Lacks b'_' free.number refl) in
    let (root_size, root_size_is, r_is, rp_is) =
      create_volume-eq-ok vg id root m.store.unpacked_size r0.volume.lv_size_bytes lacks b in
    let (verity_size, verity_size_is, v_is, vp_is) =
      create_volume-eq-ok vg id verity m.verity.unpacked_size v0.volume.lv_size_bytes lacks c in
    let result : SlotGroup × List Pipeline =
      (record { root = some r; verity = some v; boot = none }, rp ∷ vp ∷ []) in
    let wanted : SlotGroup × List Pipeline = (g, pre) in
    let done : ok result ≡ ok wanted = e6 in
    let same : result ≡ wanted = ok-eq-ok result wanted done in
    record {
      current = current;
      active_root = r0;
      active_verity = v0;
      id = id;
      root_size = root_size;
      verity_size = verity_size;
      current_is = active;
      root_was = context-eq-ok active_without_root current.root has_root;
      verity_was = context-eq-ok active_without_verity current.verity has_verity;
      unused = free.unused;
      root_size_is = root_size_is;
      verity_size_is = verity_size_is;
      root_is = sym (ap (λ q. q.0.root) same) ∙ ap some r_is;
      verity_is = sym (ap (λ q. q.0.verity) same) ∙ ap some v_is;
      steps = sym (ap (λ q. q.1) same) ∙ ap₂ (λ p q. p ∷ q ∷ []) rp_is vp_is;
    }

-- The new group has both slots, which bear an identifier that is free.
pub create_empty_slot-eq-ok :
    (rt : Runtime) (m : Manifest) {g : SlotGroup} {pre : List Pipeline}
    → create_empty_slot rt m ≡ ok (g, pre)
    → (id : Text) × (r : Slot) × (v : Slot) × (g.root ≡ some r)
      × (g.verity ≡ some v)
      × (r.status ≡ empty (known id))
      × (v.status ≡ empty (known id))
      × (contains (used_ids rt.slotgroups) id ≡ false)
create_empty_slot-eq-ok rt m {g} {pre} e =
    let pair = create_empty_slot-IsNewPair rt m {g = g} {pre = pre} e in
    let vg = pair.active_root.volume.vg_name in
    (
      pair.id,
      new_slot root vg pair.id pair.root_size,
      new_slot verity vg pair.id pair.verity_size,
      pair.root_is,
      pair.verity_is,
      refl,
      refl,
      pair.unused,
    )
