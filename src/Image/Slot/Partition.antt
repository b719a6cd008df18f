-- ===== src/Image/Slot/Partition.antt =====
-- crates/ota-update/src/image/slot.rs: the slots and the left over volumes of `from_volumes`.
use ghaf_givc.Prelude.{
  ◌≡◌, refl, ◌≢◌, List, [], ◌∷◌, ◌++◌, map, list_eq, option_eq, nat_eq, All, Result, ok, err, panic,
}
use mathlib.Core.List.Perm
use mathlib.Core.List.{Perm, perm_middle}
use ghaf_givc.Image.Volume.{Volume}
use ghaf_givc.Image.Slot.{Kind, Status, Slot, decode_status, keep_slot, from_volumes, display}
use ghaf_givc.Image.Slot.RoundTrip.{name_text-decode_status}

abbrev pub volumes_of : List Slot → List Volume
volumes_of slots = map (λ s. s.volume) slots

-- The name of the slot's volume is the one that the slot displays.
abbrev pub IsNamedAfter : Slot → Type 0
IsNamedAfter s = display s ≡ s.volume.lv_name

abbrev pub IsUnparsed : Volume → Type 0
IsUnparsed v = (p : Kind × Status) → decode_status v.lv_name ≢ ok p

-- What `from_volumes` promises about its two results.
pub record IsPartition (vols : List Volume) (slots : List Slot) (unparsed : List Volume)
    : Type 0 where
  pub complete : Perm (volumes_of slots ++ unparsed) vols
  pub parsed : All IsNamedAfter slots
  pub left_over : All IsUnparsed unparsed

keep_slot-IsPartition :
    (v : Volume) (vols : List Volume) (r : Result (Kind × Status)) (slots : List Slot)
    (unparsed : List Volume)
    → decode_status v.lv_name ≡ r
    → IsPartition vols slots unparsed
    → IsPartition (v ∷ vols) (keep_slot v r (slots, unparsed)).0 (keep_slot v r (slots, unparsed)).1
keep_slot-IsPartition v vols (ok (k, s)) slots unparsed e p = record {
  complete = Perm.cons v p.complete;
  parsed = (name_text-decode_status v.lv_name k s e, p.parsed);
  left_over = p.left_over;
}
keep_slot-IsPartition v vols (err x) slots unparsed e p = record {
  complete = Perm.trans (perm_middle (volumes_of slots) unparsed) (Perm.cons v p.complete);
  parsed = p.parsed;
  left_over = ((λ q f. cc), p.left_over);
}
keep_slot-IsPartition v vols panic slots unparsed e p = record {
  complete = Perm.trans (perm_middle (volumes_of slots) unparsed) (Perm.cons v p.complete);
  parsed = p.parsed;
  left_over = ((λ q f. cc), p.left_over);
}

-- The volumes of the slots and the unparsed volumes are the given volumes in some order; each
-- slot displays as the name of its volume; and no unparsed volume has a name that decodes.
from_volumes-IsPartition :
    (vols : List Volume) → IsPartition vols (from_volumes vols).0 (from_volumes vols).1
unfolding from_volumes
from_volumes-IsPartition [] = record { complete = Perm.refl []; parsed = tt; left_over = tt }
from_volumes-IsPartition (v ∷ vols) =
    keep_slot-IsPartition v vols (decode_status v.lv_name) _ _ refl (from_volumes-IsPartition vols)
