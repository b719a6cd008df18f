-- ===== src/Image/Slot.antt =====
-- crates/ota-update/src/image/slot.rs: a slot is a volume whose name tells its state.
pub mod RoundTrip
pub mod Partition
use ghaf_givc.Prelude.{
  ◌≡◌, ◌↔◌, Bool, true, false, not, ◌&&◌, Option, none, some, List, [], ◌∷◌, ◌++◌, ◌==◌, Eq, eq_iff,
  nat_eq, list_beq, list_eq, list_beq, arith, if◌then◌else◌, Result, ok, err, ◌>>=◌, ◌>>◌, ensure,
  missing_version, empty_name, unknown_kind, slot_already_used,
}
use ghaf_givc.Text.{Text, codes, rsplit_once}
use ghaf_givc.Image.Version.{Version, version_eq, has_hash}
use ghaf_givc.Image.Volume.{Volume}
use ghaf_givc.Image.Pipeline.{Pipeline, command, with_arg, single}

pub data Kind : Type 0 where
  root verity : Kind

pub data EmptyId : Type 0 where
  known : Text → EmptyId
  legacy : EmptyId

pub data Status : Type 0 where
  used : Version → Status
  empty : EmptyId → Status

pub record Slot : Type 0 where
  pub kind : Kind
  pub status : Status
  pub volume : Volume

-- The derived `Display` and `EnumString` of `Kind`, in lower case.
abbrev pub kind_text : Kind → Text
kind_text root = codes "root"
kind_text verity = codes "verity"

unfoldable pub parse_kind : Text → Result Kind
unfolding list_beq
parse_kind name =
    if name == codes "root"
    then ok root
    else if name == codes "verity"
    then ok verity
    else err unknown_kind

-- `rsplitn(3, '_')`: name, version and what stands behind it.
unfoldable pub split_name : Text → Result (Text × Text × Option Text)
split_name value = elim (rsplit_once b'_' value) [
  | none ↦ err missing_version
  | some (left, last) ↦ elim (rsplit_once b'_' left) [
    | none ↦ ok (left, last, none)
    | some (first, middle) ↦ ok (first, middle, some last)
  ]
]

abbrev empty_id_of : Option Text → EmptyId
empty_id_of (some id) = known id
empty_id_of none = legacy

unfoldable pub status_of : Text → Option Text → Status
unfolding list_beq
status_of version_raw hash_or_id =
    if version_raw == codes "empty"
    then empty (empty_id_of hash_or_id)
    else used (record { revision = version_raw; hash = hash_or_id })

-- The rest of `decode_status`, on the parts of the name.
unfoldable pub assemble : Text × Text × Option Text → Result (Kind × Status)
unfolding list_beq
assemble (name, version_raw, hash_or_id) = do
  ensure (not (name == [])) empty_name
  kind ← parse_kind name
  ok (kind, status_of version_raw hash_or_id)

unfoldable pub decode_status : Text → Result (Kind × Status)
decode_status value = split_name value >>= assemble

abbrev keep_slot :
    Volume → Result (Kind × Status) → List Slot × List Volume → List Slot × List Volume
keep_slot v (ok (kind, status)) (slots, unparsed) =
    (record { kind = kind; status = status; volume = v } ∷ slots, unparsed)
keep_slot v _ (slots, unparsed) = (slots, v ∷ unparsed)

-- The parsed slots and the volumes left over, each in the order given.
unfoldable pub from_volumes : List Volume → List Slot × List Volume
from_volumes [] = ([], [])
from_volumes (v ∷ vols) = keep_slot v (decode_status v.lv_name) (from_volumes vols)

abbrev pub suffix : Option Text → Text
suffix none = []
suffix (some hash) = codes "_" ++ hash

abbrev pub status_text : Status → Text
status_text (used v) = v.revision ++ suffix v.hash
status_text (empty (known id)) = codes "empty_" ++ id
status_text (empty legacy) = codes "empty"

abbrev pub name_text : Kind → Status → Text
name_text kind status = kind_text kind ++ (codes "_" ++ status_text status)

-- `Display`
abbrev pub display : Slot → Text
display s = name_text s.kind s.status

abbrev pub status_is_empty : Status → Bool
status_is_empty (used v) = false
status_is_empty (empty id) = true

abbrev pub is_empty : Slot → Bool
is_empty s = status_is_empty s.status

abbrev pub is_used : Slot → Bool
is_used s = not (is_empty s)

abbrev pub status_is_legacy : Status → Bool
status_is_legacy (used v) = not (has_hash v)
status_is_legacy (empty legacy) = true
status_is_legacy (empty (known id)) = false

abbrev pub is_legacy : Slot → Bool
is_legacy s = status_is_legacy s.status

abbrev pub status_empty_id : Status → Option Text
status_empty_id (empty (known id)) = some id
status_empty_id (empty legacy) = none
status_empty_id (used v) = none

abbrev pub empty_id : Slot → Option Text
empty_id s = status_empty_id s.status

abbrev pub status_version : Status → Option Version
status_version (used v) = some v
status_version (empty id) = none

abbrev pub version : Slot → Option Version
version s = status_version s.status

unfoldable pub into_version : Slot → Version → Result Slot
into_version s v = do ensure (not (is_used s)) slot_already_used; ok (record s { status = used v })

abbrev pub into_empty : Slot → Text → Slot
into_empty s identifier = record s { status = empty (known identifier) }

-- The command that renames the volume to what the slot stands for.
unfoldable pub rename : Slot → Pipeline
rename s =
    let c = with_arg (command (codes "lvrename")) s.volume.vg_name in
    single (with_arg (with_arg c s.volume.lv_name) (display s))

unfoldable pub status_beq : Status → Status → Bool
status_beq (used v) (used w) = v == w
status_beq (empty (known a)) (empty (known b)) = a == b
status_beq (empty legacy) (empty legacy) = true
status_beq _ _ = false

pub status_beq_iff : (s t : Status) → (status_beq s t ≡ true) ↔ (s ≡ t)
unfolding status_beq
status_beq_iff (used v) (used w) = ground (arith, eq_iff v w)
status_beq_iff (empty (known a)) (empty (known b)) = ground (arith, eq_iff a b)
status_beq_iff _ _ = ground arith

instance abbrev pub status_eq : Eq Status
status_eq = record { beq = status_beq; beq_iff = status_beq_iff }

-- Two slots of one update: the kind is ignored.
abbrev pub matches : Slot → Slot → Bool
matches s other = s.status == other.status

pub data SlotClass : Type 0 where
  broken active vacant inactive : SlotClass
