-- ===== src/Image/Slot/RoundTrip.antt =====
-- crates/ota-update/src/image/slot.rs: `decode_status` against `Display`.
use ghaf_givc.Prelude.{
  ℕ, ◌≡◌, refl, sym, ◌∙◌, ◌≢◌, inl, inr, Option, none, some, ◌∷◌, ◌++◌, arith, Option-cases, eq_iff,
  list_eq, option_eq, nat_eq, ok, >>=-eq-ok,
}
use mathlib.Core.List.{append_assoc, append-nil}
use ghaf_givc.Text.{
  Text, codes, rsplit_once, Lacks, rsplit_once-append, rsplit_once-Lacks, rsplit_once_sound,
}
use ghaf_givc.Image.Version.{Version}
use ghaf_givc.Image.Slot.{
  Kind, root, verity, known, legacy, Status, used, empty, kind_text, parse_kind, split_name,
  status_of, decode_status, assemble, suffix, status_text, name_text, Option, ok, eq_iff,
}

abbrev pub LacksOpt : ℕ → Option Text → Type 0
LacksOpt sep none = Unit
LacksOpt sep (some s) = Lacks sep s

-- The parts of the name hold no underscore, and no version is called `empty`.
abbrev pub IsNamed : Status → Type 0
IsNamed (used v) = Lacks b'_' v.revision × (v.revision ≢ codes "empty") × LacksOpt b'_' v.hash
IsNamed (empty (known id)) = Lacks b'_' id
IsNamed (empty legacy) = Unit

split_name_three :
    (first middle last : Text)
    → Lacks b'_' middle
    → Lacks b'_' last
    → split_name (first ++ b'_' ∷ (middle ++ b'_' ∷ last)) ≡ ok (first, middle, some last)
unfolding split_name
split_name_three first middle last h k =
    let e : rsplit_once b'_' (first ++ b'_' ∷ (middle ++ b'_' ∷ last))
        ≡ some (first ++ b'_' ∷ middle, last) =
      rw (sym (append_assoc first (b'_' ∷ middle) (b'_' ∷ last)))
        (rsplit_once-append b'_' (first ++ b'_' ∷ middle) last k) in
    rw (e, split_name) (rw (rsplit_once-append b'_' first middle h))

split_name_two :
    (first last : Text)
    → Lacks b'_' first
    → Lacks b'_' last
    → split_name (first ++ b'_' ∷ last) ≡ ok (first, last, none)
unfolding split_name
split_name_two first last h k =
    rw (rsplit_once-append b'_' first last k, split_name) (rw (rsplit_once-Lacks b'_' first h))

kind_text-Lacks : (k : Kind) → Lacks b'_' (kind_text k)
kind_text-Lacks root = omega arith
kind_text-Lacks verity = omega arith

empty-Lacks : Lacks b'_' (codes "empty")
empty-Lacks = omega arith

split_name-name_text :
    (k : Kind) (version_raw : Text) (hash : Option Text)
    → Lacks b'_' version_raw
    → LacksOpt b'_' hash
    → split_name (kind_text k ++ b'_' ∷ (version_raw ++ suffix hash))
      ≡ ok (kind_text k, version_raw, hash)
split_name-name_text k raw none h l =
    rw (append-nil raw) (split_name_two (kind_text k) raw (kind_text-Lacks k) h)
split_name-name_text k raw (some hash) h l = split_name_three (kind_text k) raw hash h l

parse_kind-kind_text : (k : Kind) → parse_kind (kind_text k) ≡ ok k
unfolding parse_kind
parse_kind-kind_text root = refl
parse_kind-kind_text verity = refl

decode_parts :
    (k : Kind) (version_raw : Text) (hash : Option Text)
    → Lacks b'_' version_raw
    → LacksOpt b'_' hash
    → decode_status (kind_text k ++ b'_' ∷ (version_raw ++ suffix hash))
      ≡ ok (k, status_of version_raw hash)
unfolding decode_status assemble parse_kind
decode_parts root raw hash h l = rw (split_name-name_text root raw hash h l)
decode_parts verity raw hash h l = rw (split_name-name_text verity raw hash h l)

status_of-used : (v : Version) → v.revision ≢ codes "empty" → status_of v.revision v.hash ≡ used v
unfolding status_of
status_of-used v n = ground (arith, eq_iff v.revision (codes "empty"))

-- Every status whose parts hold no underscore, and whose version is not called `empty`, is read
-- back from the name that `Display` writes for it, together with the slot's kind.
pub decode_status-name_text :
    (k : Kind) (s : Status) → IsNamed s → decode_status (name_text k s) ≡ ok (k, s)
unfolding status_of
decode_status-name_text k (used v) (h, n, l) =
    decode_parts k v.revision v.hash h l ∙ rw (status_of-used v n)
decode_status-name_text k (empty (known id)) h =
    decode_parts k (codes "empty") (some id) empty-Lacks h
decode_status-name_text k (empty legacy) h = decode_parts k (codes "empty") none empty-Lacks tt

parse_kind_sound : (name : Text) {k : Kind} → parse_kind name ≡ ok k → kind_text k ≡ name
unfolding parse_kind
parse_kind_sound name h = ground (arith, eq_iff name (codes "root"), eq_iff name (codes "verity"))

status_of_sound :
    (version_raw : Text) (hash : Option Text)
    → status_text (status_of version_raw hash) ≡ version_raw ++ suffix hash
unfolding status_of
status_of_sound raw none = ground (arith, eq_iff raw (codes "empty"))
status_of_sound raw (some hash) = ground (arith, eq_iff raw (codes "empty"))

split_name_sound :
    (value : Text) {name version_raw : Text} {hash : Option Text}
    → split_name value ≡ ok (name, version_raw, hash)
    → name ++ b'_' ∷ (version_raw ++ suffix hash) ≡ value
unfolding split_name
split_name_sound value h = elim (Option-cases (rsplit_once b'_' value)) [
  | inl e ↦ ground arith
  | inr ((left, last), e) ↦ elim (Option-cases (rsplit_once b'_' left)) [
    | inl e' ↦ ground (arith, rsplit_once_sound b'_' value e, append-nil last)
    | inr ((first, middle), e') ↦ ground (
      arith,
      rsplit_once_sound b'_' value e,
      rsplit_once_sound b'_' left e',
      append_assoc first (b'_' ∷ middle) (b'_' ∷ last),
    )
  ]
]

assemble_parts :
    (name version_raw : Text) (hash : Option Text) (k : Kind) (s : Status)
    → assemble (name, version_raw, hash) ≡ ok (k, s)
    → (parse_kind name ≡ ok k) × (status_of version_raw hash ≡ s)
unfolding assemble
assemble_parts name raw hash k s h = ground arith

assemble_sound :
    (name version_raw : Text) (hash : Option Text) (k : Kind) (s : Status)
    → assemble (name, version_raw, hash) ≡ ok (k, s)
    → name_text k s ≡ name ++ b'_' ∷ (version_raw ++ suffix hash)
assemble_sound name raw hash k s h =
    let (e, f) = assemble_parts name raw hash k s h in
    rw (← f, parse_kind_sound name e, status_of_sound raw hash)

-- Whatever name `decode_status` accepts, `Display` writes again for the slot decoded from it.
pub name_text-decode_status :
    (value : Text) (k : Kind) (s : Status) → decode_status value ≡ ok (k, s) → name_text k s ≡ value
unfolding decode_status
name_text-decode_status value k s h =
    let ((name, raw, hash), e, h') = >>=-eq-ok (split_name value) assemble h in
    assemble_sound name raw hash k s h' ∙ split_name_sound value e
