-- ===== src/Admin/Registry/Search.antt =====
-- crates/admin/src/admin/registry.rs: the searches of the registry.
use ghaf_givc.Prelude.{
  ◌≡◌, subst, ◌↔◌, inl, inr, Bool, true, List, [], ◌∷◌, Bool-cases, list_eq, option_eq, nat_eq,
  Member, filter_by, Only, filter_by-Only, ok,
}
use ghaf_givc.Text.{Text}
use ghaf_givc.Admin.Types.{UnitType}
use ghaf_givc.Admin.Entry.{RegistryEntry}
use ghaf_givc.Admin.Registry.{
  some_names, find_names, starts_with, keys, Registry, values, unit_type_beq, by_type, by_type_many,
  single_service,
}

single_service-eq-ok :
    (es : List RegistryEntry) {e : RegistryEntry} → single_service es ≡ ok e → es ≡ e ∷ []
single_service-eq-ok [] h = cc
single_service-eq-ok (f ∷ []) h = cc
single_service-eq-ok (f ∷ g ∷ es) h = cc

-- An entry that is looked up by its type is the only entry of the registry that has this type.
by_type-Only :
    (ty : UnitType) (reg : Registry) (e : RegistryEntry)
    → by_type ty reg ≡ ok e
    → Only (λ x. unit_type_beq x.unit_type ty) e (values reg.table)
unfolding by_type by_type_many
by_type-Only ty reg e h =
    filter_by-Only (λ x. unit_type_beq x.unit_type ty) (values reg.table) (single_service-eq-ok _ h)

Member-filter_by :
    (p : Text → Bool) (xs : List Text) (x : Text)
    → Member x (filter_by p xs) ↔ (Member x xs × (p x ≡ true))
unfolding filter_by
Member-filter_by p [] x = (λ h. absurd h, λ h. absurd h.0)
Member-filter_by p (y ∷ ys) x = elim (Bool-cases (p y)) [
  | inl t ↦ rw t (
    (λ m. elim m [
      | inl e ↦ (inl e, rw (← e) t)
      | inr r ↦ let (q, h) = (Member-filter_by p ys x).0 r in (inr q, h)
    ]),
    (λ (m, h). elim m [ inl e ↦ inl e | inr r ↦ inr ((Member-filter_by p ys x).1 (r, h)) ]),
  )
  | inr f ↦ rw f (
    (λ m. let (q, h) = (Member-filter_by p ys x).0 m in (inr q, h)),
    (λ (m, h). elim m [
      | inl e ↦ absurd (cc (f, h, e))
      | inr r ↦ (Member-filter_by p ys x).1 (r, h)
    ]),
  )
]

some_names-eq-ok : (ns : List Text) {ms : List Text} → some_names ns ≡ ok ms → ns ≡ ms
some_names-eq-ok [] h = cc
some_names-eq-ok (n ∷ ns) h = cc

-- The names that a search by a prefix finds are exactly the names of the registry that start with
-- the prefix.
find_names_iff :
    (prefix : Text) (reg : Registry) (ns : List Text) (x : Text)
    → find_names prefix reg ≡ ok ns
    → Member x ns ↔ (Member x (keys reg.table) × (starts_with prefix x ≡ true))
unfolding find_names
find_names_iff prefix reg ns x h =
    subst (λ l. Member x l ↔ (Member x (keys reg.table) × (starts_with prefix x ≡ true)))
      (some_names-eq-ok _ h) (Member-filter_by (starts_with prefix) (keys reg.table) x)
