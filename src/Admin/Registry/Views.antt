-- ===== src/Admin/Registry/Views.antt =====
-- crates/admin/src/admin/registry.rs: what a subscriber knows after a list of events.
use ghaf_givc.Prelude.{
  ◌≡◌, refl, ap, inl, inr, Option, none, some, List, [], ◌∷◌, ◌++◌, map, if◌then◌else◌, Bool-cases,
  ◌==◌, list_eq, option_eq, nat_eq,
}
use ghaf_givc.Text.{Text}
use ghaf_givc.Admin.Query.{QueryResult, Event, unit_status_changed, unit_registered, unit_shutdown}
use ghaf_givc.Admin.Entry.{RegistryEntry, entry_into}
use ghaf_givc.Admin.Registry.{Registry, Table, get, values, shutdown}
use ghaf_givc.Admin.Registry.Table.{Named}

-- A subscriber's view: what it knows of each name.
abbrev pub View : Type 0
View = Text → Option QueryResult

abbrev pub apply_event : Event → View → View
apply_event (unit_registered q) view name = if q.name == name then some q else view name
apply_event (unit_status_changed q) view name = if q.name == name then some q else view name
apply_event (unit_shutdown q) view name = if q.name == name then none else view name

-- The events, the first one first.
unfoldable pub replay : List Event → View → View
replay [] view = view
replay (event ∷ events) view = replay events (apply_event event view)

abbrev pub summary : Option RegistryEntry → Option QueryResult
summary none = none
summary (some e) = some (entry_into e)

-- What a query of the registry says of a name.
abbrev pub view_of : Registry → View
view_of reg name = summary (get name reg.table)

pub replay-append :
    (es fs : List Event) (view : View) → replay (es ++ fs) view ≡ replay fs (replay es view)
unfolding replay
replay-append [] fs view = refl
replay-append (e ∷ es) fs view = replay-append es fs (apply_event e view)

-- Views that agree on a name agree on it after the same events.
pub replay-agree :
    (es : List Event) (v w : View) (name : Text)
    → v name ≡ w name
    → replay es v name ≡ replay es w name
unfolding replay
replay-agree [] v w name h = h
replay-agree (unit_registered q ∷ es) v w name h =
    replay-agree es _ _ name (ap (λ o. if q.name == name then some q else o) h)
replay-agree (unit_status_changed q ∷ es) v w name h =
    replay-agree es _ _ name (ap (λ o. if q.name == name then some q else o) h)
replay-agree (unit_shutdown q ∷ es) v w name h =
    replay-agree es _ _ name (ap (λ o. if q.name == name then none else o) h)

abbrev pub unless_there : Option RegistryEntry → Option QueryResult → Option QueryResult
unless_there none o = o
unless_there (some e) o = none

unless_there-none : (o : Option RegistryEntry) → unless_there o none ≡ none
unless_there-none none = refl
unless_there-none (some e) = refl

pub replay-shutdowns :
    (t : Table) (view : View) (name : Text)
    → Named t
    → replay (map shutdown (values t)) view name ≡ unless_there (get name t) (view name)
unfolding replay get entry_into
replay-shutdowns [] view name h = refl
replay-shutdowns (row ∷ t) view name h = elim (Bool-cases (row.0 == name)) [
  | inl e ↦
      rw (replay-shutdowns t (apply_event (shutdown row.1) view) name h.1, h.0, e)
        (unless_there-none (get name t))
  | inr e ↦ rw (replay-shutdowns t (apply_event (shutdown row.1) view) name h.1, h.0, e) refl
]
