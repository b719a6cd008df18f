-- ===== src/Admin/Server/Placed.antt =====
-- crates/admin/src/admin/registry.rs, as the admin server uses it: which entries are managed.
use ghaf_givc.Prelude.{
  ◌≡◌, sym, subst, inl, inr, Bool, not, List, [], ◌∷◌, Bool-cases, ◌==◌, list_eq, option_eq, nat_eq,
  All, filter_by, Result, ok, err, panic, context, >>=-eq-ok, status_missing, endpoint_missing,
}
use ghaf_givc.Text.{Text}
use ghaf_givc.Admin.Types.{
  UnitType, UnitStatus, app_vm, app, unit_type_from, unit_status_from, endpoint_from,
}
use ghaf_givc.Admin.Entry.{
  RegistryEntry, RegistryRequest, Placement, endpoint_of, managed, on_host, entry_from,
}
use ghaf_givc.Admin.Registry.{
  Registry, Table, new, register, deregister, update_state, rows, remove, insert, set_status,
  watch_list, values, depends_on,
}
use ghaf_givc.Admin.Registry.Effects.{update_state-eq-ok}
use ghaf_givc.Admin.Registry.Invariant.{
  Reachable, start, then_step, registers, deregisters, updates, deregister-eq-ok,
}

-- Only an application is managed by an agent; any other unit is an agent of its own.
abbrev pub PlacedAs : UnitType → Placement → Type 0
PlacedAs ty (endpoint_of transport vm) = Unit
PlacedAs ty (managed vm parent) = ty ≡ record { vm = app_vm; service = app }
PlacedAs ty on_host = ⊥

abbrev pub IsPlaced : RegistryEntry → Type 0
IsPlaced e = PlacedAs e.unit_type e.placement

abbrev pub AllPlaced : Table → Type 0
AllPlaced t = All (λ row. IsPlaced row.1) t

pub record IsServed (reg : Registry) : Type 0 where
  pub reachable : Reachable reg
  pub placed : AllPlaced reg.table

AllPlaced-remove : (name : Text) (t : Table) → AllPlaced t → AllPlaced (remove name t)
unfolding remove
AllPlaced-remove name [] h = tt
AllPlaced-remove name (row ∷ t) h = elim (Bool-cases (row.0 == name)) [
  | inl e ↦ rw e (AllPlaced-remove name t h.1)
  | inr e ↦ rw e (h.0, AllPlaced-remove name t h.1)
]

AllPlaced-rows : (p : RegistryEntry → Bool) (t : Table) → AllPlaced t → AllPlaced (rows p t)
unfolding rows
AllPlaced-rows p [] h = tt
AllPlaced-rows p (row ∷ t) h = elim (Bool-cases (p row.1)) [
  | inl e ↦ rw e (h.0, AllPlaced-rows p t h.1)
  | inr e ↦ rw e (AllPlaced-rows p t h.1)
]

AllPlaced-set_status :
    (name : Text) (us : UnitStatus) (t : Table) → AllPlaced t → AllPlaced (set_status name us t)
unfolding set_status
AllPlaced-set_status name us [] h = tt
AllPlaced-set_status name us (row ∷ t) h = elim (Bool-cases (row.0 == name)) [
  | inl e ↦ rw e (h.0, h.1)
  | inr e ↦ rw e (h.0, AllPlaced-set_status name us t h.1)
]

pub new-IsServed : IsServed new
unfolding new
new-IsServed = record { reachable = start; placed = tt }

pub register-IsServed :
    (e : RegistryEntry) (reg : Registry) → IsPlaced e → IsServed reg → IsServed (register e reg)
unfolding register insert
register-IsServed e reg h s = record {
  reachable = then_step s.reachable (registers e);
  placed = (h, AllPlaced-remove e.name reg.table s.placed);
}

pub deregister-IsServed :
    (name : Text) (reg : Registry) {next_reg : Registry}
    → deregister name reg ≡ ok next_reg
    → IsServed reg
    → IsServed next_reg
deregister-IsServed name reg {next_reg} e s =
    let (entry, _, same) = deregister-eq-ok name reg e in
    record {
      reachable = then_step s.reachable (deregisters name e);
      placed =
          subst (λ r. AllPlaced r.table) (sym same)
            (AllPlaced-rows (λ re. not (depends_on name re)) (remove name reg.table)
              (AllPlaced-remove name reg.table s.placed));
    }

pub update_state-IsServed :
    (name : Text) (us : UnitStatus) (reg : Registry) {next_reg : Registry}
    → update_state name us reg ≡ ok next_reg
    → IsServed reg
    → IsServed next_reg
update_state-IsServed name us reg {next_reg} e s =
    let (entry, _, same) = update_state-eq-ok name us reg e in
    record {
      reachable = then_step s.reachable (updates name us e);
      placed =
          subst (λ r. AllPlaced r.table) (sym same)
            (AllPlaced-set_status name us reg.table s.placed);
    }

pub entry_from-IsPlaced :
    (req : RegistryRequest) {e : RegistryEntry} → entry_from req ≡ ok e → IsPlaced e
unfolding entry_from
entry_from-IsPlaced req {e} h =
    let (ty, _, h1) = >>=-eq-ok (unit_type_from req.unit_type) _ h in
    let (state, _, h2) = >>=-eq-ok (context status_missing req.state) _ h1 in
    let (status, _, h3) = >>=-eq-ok (unit_status_from state) _ h2 in
    let (transport, _, h4) = >>=-eq-ok (context endpoint_missing req.transport) _ h3 in
    let (ep, _, h5) = >>=-eq-ok (endpoint_from transport) _ h4 in subst (λ r. PlacedResult r) h5 tt
  where
    PlacedResult : Result RegistryEntry → Type 0
    PlacedResult (ok x) = IsPlaced x
    PlacedResult (err why) = Unit
    PlacedResult panic = Unit

values-AllPlaced : (t : Table) → AllPlaced t → All IsPlaced (values t)
values-AllPlaced [] h = tt
values-AllPlaced (row ∷ t) h = (h.0, values-AllPlaced t h.1)

filter_by-All :
    (p : RegistryEntry → Bool) (es : List RegistryEntry)
    → All IsPlaced es
    → All IsPlaced (filter_by p es)
unfolding filter_by
filter_by-All p [] h = tt
filter_by-All p (e ∷ es) h = elim (Bool-cases (p e)) [
  | inl t ↦ rw t (h.0, filter_by-All p es h.1)
  | inr f ↦ rw f (filter_by-All p es h.1)
]

-- The watched entries are placed as the others.
pub watch_list-IsPlaced : (reg : Registry) → AllPlaced reg.table → All IsPlaced (watch_list reg)
unfolding watch_list
watch_list-IsPlaced reg h =
    filter_by-All (λ x. x.watch) (values reg.table) (values-AllPlaced reg.table h)
