-- ===== src/Admin/Registry/Table.antt =====
-- crates/admin/src/admin/registry.rs: what the operations on the map leave under each name.
use ghaf_givc.Prelude.{
  ◌≡◌, refl, sym, ◌∙◌, ◌≢◌, inl, inr, Bool, false, Option, none, some, [], ◌∷◌, arith,
  if◌then◌else◌, Bool-cases, ◌==◌, eq_cases, ne→eq_false, list_eq, option_eq, nat_eq,
}
use ghaf_givc.Text.{Text}
use ghaf_givc.Admin.Types.{UnitStatus}
use ghaf_givc.Admin.Entry.{RegistryEntry}
use ghaf_givc.Admin.Registry.{Table, get, rows, remove, with_status, set_status, insert}

-- No name stands twice.
abbrev pub Distinct : Table → Type 0
Distinct [] = Unit
Distinct (row ∷ t) = (get row.0 t ≡ none) × Distinct t

-- Every entry stands under its own name.
abbrev pub Named : Table → Type 0
Named [] = Unit
Named (row ∷ t) = (row.1.name ≡ row.0) × Named t

pub get-remove_same : (k : Text) (t : Table) → get k (remove k t) ≡ none
unfolding get remove
get-remove_same k [] = refl
get-remove_same k (row ∷ t) = ground (arith, get-remove_same k t)

pub get-remove_other : (j k : Text) (t : Table) → j ≢ k → get j (remove k t) ≡ get j t
unfolding get remove
get-remove_other j k [] n = refl
get-remove_other j k (row ∷ t) n = elim (eq_cases row.0 k) [
  | inl (same, e) ↦
      let other : (row.0 == j) ≡ false = ne→eq_false row.0 j (λ h. n (cc (same, h))) in
      rw (e, other) (get-remove_other j k t n)
  | inr (_, e) ↦ rw (e, get-remove_other j k t n)
]

-- What a test leaves of an entry.
abbrev pub keep : (RegistryEntry → Bool) → Option RegistryEntry → Option RegistryEntry
keep p none = none
keep p (some e) = if p e then some e else none

pub get-rows-none :
    (k : Text) (p : RegistryEntry → Bool) (t : Table) → get k t ≡ none → get k (rows p t) ≡ none
unfolding get rows
get-rows-none k p [] e = refl
get-rows-none k p (row ∷ t) e = elim (Bool-cases (row.0 == k)) [
  | inl here ↦ absurd (ground arith)
  | inr other ↦
      let rest = get-rows-none k p t (rw (other, get) at e) in
      elim (Bool-cases (p row.1)) [
        | inl kept ↦ rw (kept, other) rest
        | inr dropped ↦ rw dropped rest
      ]
]

pub get-rows :
    (k : Text) (p : RegistryEntry → Bool) (t : Table)
    → Distinct t
    → get k (rows p t) ≡ keep p (get k t)
unfolding get rows
get-rows k p [] d = refl
get-rows k p (row ∷ t) d = elim (eq_cases row.0 k) [
  | inl (same, here) ↦ elim (Bool-cases (p row.1)) [
    | inl kept ↦ rw (kept, here, kept)
    | inr dropped ↦ rw (dropped, here, dropped) (get-rows-none k p t (rw same at d.0))
  ]
  | inr (_, other) ↦
      let rest = get-rows k p t d.1 in
      elim (Bool-cases (p row.1)) [
        | inl kept ↦ rw (kept, other) rest
        | inr dropped ↦ rw (dropped, other) rest
      ]
]

pub Distinct-remove : (k : Text) (t : Table) → Distinct t → Distinct (remove k t)
unfolding remove
Distinct-remove k [] d = tt
Distinct-remove k (row ∷ t) d = elim (eq_cases row.0 k) [
  | inl (_, e) ↦ rw e (Distinct-remove k t d.1)
  | inr (n, e) ↦ rw e (get-remove_other row.0 k t n ∙ d.0, Distinct-remove k t d.1)
]

pub Distinct-rows : (p : RegistryEntry → Bool) (t : Table) → Distinct t → Distinct (rows p t)
unfolding rows
Distinct-rows p [] d = tt
Distinct-rows p (row ∷ t) d = elim (Bool-cases (p row.1)) [
  | inl kept ↦ rw kept (get-rows-none row.0 p t d.0, Distinct-rows p t d.1)
  | inr dropped ↦ rw dropped (Distinct-rows p t d.1)
]

pub Named-remove : (k : Text) (t : Table) → Named t → Named (remove k t)
unfolding remove
Named-remove k [] d = tt
Named-remove k (row ∷ t) d = elim (Bool-cases (row.0 == k)) [
  | inl e ↦ rw e (Named-remove k t d.1)
  | inr e ↦ rw e (d.0, Named-remove k t d.1)
]

pub Named-rows : (p : RegistryEntry → Bool) (t : Table) → Named t → Named (rows p t)
unfolding rows
Named-rows p [] d = tt
Named-rows p (row ∷ t) d = elim (Bool-cases (p row.1)) [
  | inl kept ↦ rw kept (d.0, Named-rows p t d.1)
  | inr dropped ↦ rw dropped (Named-rows p t d.1)
]

pub Named-get : (k : Text) (t : Table) {e : RegistryEntry} → Named t → get k t ≡ some e → e.name ≡ k
unfolding get
Named-get k [] d f = cc
Named-get k (row ∷ t) {e} d f = elim (eq_cases row.0 k) [
  | inl (same, here) ↦ let found : row.1 ≡ e = ground arith in rw (← found) (d.0 ∙ same)
  | inr (_, other) ↦ Named-get k t d.1 (rw (other, get) at f)
]

-- Under a name other than the changed one, nothing changes.
pub get-set_status_other :
    (j k : Text) (us : UnitStatus) (t : Table) → j ≢ k → get j (set_status k us t) ≡ get j t
unfolding get set_status
get-set_status_other j k us [] n = refl
get-set_status_other j k us (row ∷ t) n = elim (eq_cases row.0 k) [
  | inl (same, e) ↦
      let other : (row.0 == j) ≡ false = ne→eq_false row.0 j (λ h. n (cc (same, h))) in
      rw (e, other) refl
  | inr (_, e) ↦ rw (e, get-set_status_other j k us t n)
]

-- An entry with the new status, if there is one.
abbrev pub updated_entry : UnitStatus → Option RegistryEntry → Option RegistryEntry
updated_entry us none = none
updated_entry us (some e) = some (with_status us e)

pub get-set_status_same :
    (k : Text) (us : UnitStatus) (t : Table)
    → get k (set_status k us t) ≡ updated_entry us (get k t)
unfolding get set_status
get-set_status_same k us [] = refl
get-set_status_same k us (row ∷ t) = elim (Bool-cases (row.0 == k)) [
  | inl e ↦ rw (e, e)
  | inr e ↦ rw (e, e) (get-set_status_same k us t)
]

pub Distinct-set_status :
    (k : Text) (us : UnitStatus) (t : Table) → Distinct t → Distinct (set_status k us t)
unfolding set_status
Distinct-set_status k us [] d = tt
Distinct-set_status k us (row ∷ t) d = elim (eq_cases row.0 k) [
  | inl (_, e) ↦ rw e d
  | inr (n, e) ↦ rw e (get-set_status_other row.0 k us t n ∙ d.0, Distinct-set_status k us t d.1)
]

pub Named-set_status :
    (k : Text) (us : UnitStatus) (t : Table) → Named t → Named (set_status k us t)
unfolding set_status
Named-set_status k us [] d = tt
Named-set_status k us (row ∷ t) d = elim (Bool-cases (row.0 == k)) [
  | inl e ↦ rw e d
  | inr e ↦ rw e (d.0, Named-set_status k us t d.1)
]

pub get-insert :
    (j k : Text) (e : RegistryEntry) (t : Table)
    → get j (insert k e t) ≡ (if k == j then some e else get j t)
unfolding get insert
get-insert j k e t = elim (eq_cases k j) [
  | inl (_, h) ↦ rw h refl
  | inr (n, h) ↦ rw (h, get-remove_other j k t (λ m. n (sym m))) refl
]
