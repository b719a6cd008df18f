-- ===== src/Admin/Registry/Invariant.antt =====
-- crates/admin/src/admin/registry.rs: the operations as steps, and what holds of every state that
-- they reach.
use ghaf_givc.Prelude.{
  ◌≡◌, refl, sym, subst, inl, inr, not, some, arith, Option-cases, list_eq, option_eq, nat_eq, ok,
  context, >>=-eq-ok, not_registered,
}
use ghaf_givc.Text.{Text}
use ghaf_givc.Admin.Types.{UnitStatus}
use ghaf_givc.Admin.Entry.{RegistryEntry}
use ghaf_givc.Admin.Registry.{
  Registry, new, register, deregister, deregister_entry, update_state, get, remove, insert,
  set_status, depends_on,
}
use ghaf_givc.Admin.Registry.Table.{
  Distinct, Named, get-remove_same, Distinct-remove, Distinct-rows, Named-remove, Named-rows,
  Distinct-set_status, Named-set_status,
}

-- One call that succeeds.
pub data Step : Registry → Registry → Type 0 where
  registers : (entry : RegistryEntry) {reg : Registry} → Step reg (register entry reg)
  deregisters :
      (name : Text) {reg next_reg : Registry}
      → deregister name reg ≡ ok next_reg
      → Step reg next_reg
  updates :
      (name : Text) (us : UnitStatus) {reg next_reg : Registry}
      → update_state name us reg ≡ ok next_reg
      → Step reg next_reg

pub data Reachable : Registry → Type 0 where
  start : Reachable new
  then_step : {reg next_reg : Registry} → Reachable reg → Step reg next_reg → Reachable next_reg

-- Every name stands once, and every entry under its own name.
pub record IsConsistent (reg : Registry) : Type 0 where
  pub distinct : Distinct reg.table
  pub named : Named reg.table

register-IsConsistent :
    (entry : RegistryEntry) (reg : Registry) → IsConsistent reg → IsConsistent (register entry reg)
unfolding register insert
register-IsConsistent entry reg c = record {
  distinct =
      (get-remove_same entry.name reg.table, Distinct-remove entry.name reg.table c.distinct);
  named = (refl, Named-remove entry.name reg.table c.named);
}

pub deregister-eq-ok :
    (name : Text) (reg : Registry) {next_reg : Registry}
    → deregister name reg ≡ ok next_reg
    → (entry : RegistryEntry) × (get name reg.table ≡ some entry)
      × (next_reg ≡ deregister_entry name reg entry)
unfolding deregister
deregister-eq-ok name reg {next_reg} e = elim (Option-cases (get name reg.table)) [
  | inl f ↦ absurd (ground arith)
  | inr (entry, f) ↦
      let done : ok (deregister_entry name reg entry) ≡ ok next_reg = rw (f, context) at e in
      (entry, f, cc)
]

pub deregister-IsConsistent :
    (name : Text) (reg : Registry) {next_reg : Registry}
    → deregister name reg ≡ ok next_reg
    → IsConsistent reg
    → IsConsistent next_reg
deregister-IsConsistent name reg {next_reg} e c =
    let (entry, _, same) = deregister-eq-ok name reg e in
    subst IsConsistent (sym same) (record {
      distinct =
          Distinct-rows (λ re. not (depends_on name re)) (remove name reg.table)
            (Distinct-remove name reg.table c.distinct);
      named =
          Named-rows (λ re. not (depends_on name re)) (remove name reg.table)
            (Named-remove name reg.table c.named);
    })

update_state-IsConsistent :
    (name : Text) (us : UnitStatus) (reg : Registry) {next_reg : Registry}
    → update_state name us reg ≡ ok next_reg
    → IsConsistent reg
    → IsConsistent next_reg
unfolding update_state
update_state-IsConsistent name us reg {next_reg} e c =
    let (entry, _, done) = >>=-eq-ok (context not_registered (get name reg.table)) _ e in
    let same : next_reg.table ≡ set_status name us reg.table = ground arith in
    record {
      distinct = subst Distinct (sym same) (Distinct-set_status name us reg.table c.distinct);
      named = subst Named (sym same) (Named-set_status name us reg.table c.named);
    }

Step-IsConsistent :
    {reg next_reg : Registry} → Step reg next_reg → IsConsistent reg → IsConsistent next_reg
Step-IsConsistent {reg} (registers entry) c = register-IsConsistent entry reg c
Step-IsConsistent {reg} (deregisters name e) c = deregister-IsConsistent name reg e c
Step-IsConsistent {reg} (updates name us e) c = update_state-IsConsistent name us reg e c

-- In every state that calls of `register`, `deregister` and `update_state` reach from the new
-- registry, each name stands once, and each entry stands under its own name.
pub Reachable-IsConsistent : (reg : Registry) → Reachable reg → IsConsistent reg
unfolding new
Reachable-IsConsistent _ start = record { distinct = tt; named = tt }
Reachable-IsConsistent _ (then_step {reg} r s) = Step-IsConsistent s (Reachable-IsConsistent reg r)
