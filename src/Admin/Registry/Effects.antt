-- ===== src/Admin/Registry/Effects.antt =====
-- crates/admin/src/admin/registry.rs: what each operation leaves under every name.
use ghaf_givc.Prelude.{
  ◌≡◌, refl, sym, ap, subst, ◌∙◌, ◌↔◌, ◌⊎◌, inl, inr, Bool, true, not, Option, none, some, arith,
  if◌then◌else◌, Bool-cases, Option-cases, ◌==◌, eq_iff, eq_cases, list_eq, option_eq, nat_eq, ok,
  context, not_registered,
}
use ghaf_givc.Text.{Text}
use ghaf_givc.Admin.Types.{UnitStatus}
use ghaf_givc.Admin.Entry.{RegistryEntry}
use ghaf_givc.Admin.Naming.{parse_vm_name}
use ghaf_givc.Admin.Entry.{agent_name, vm_name}
use ghaf_givc.Admin.Registry.{
  same_vm, Registry, register, deregister, update_state, updated_registry, by_name, get, remove,
  depends_on,
}
use ghaf_givc.Admin.Registry.Table.{
  get-insert, keep, get-remove_same, get-remove_other, get-rows, get-rows-none, get-set_status_same,
  get-set_status_other, Distinct-remove, updated_entry,
}
use ghaf_givc.Admin.Registry.Invariant.{IsConsistent, deregister-eq-ok}

-- The entry that a registration leaves under a name: the new one under its name, and under every
-- other name what stood there.
pub register-by_name :
    (entry : RegistryEntry) (reg : Registry) (name : Text)
    → by_name name (register entry reg)
      ≡ (if entry.name == name then ok entry else by_name name reg)
unfolding by_name register
register-by_name entry reg name = elim (Bool-cases (entry.name == name)) [
  | inl e ↦ rw (get-insert name entry.name entry reg.table, e) refl
  | inr e ↦ rw (get-insert name entry.name entry reg.table, e) refl
]

-- What a removal leaves of an entry under a name.
unfoldable pub left_by : Text → Text → Option RegistryEntry → Option RegistryEntry
left_by gone name o = if name == gone then none else keep (λ re. not (depends_on gone re)) o

pub get-deregister :
    (gone name : Text) (reg : Registry) {next_reg : Registry}
    → IsConsistent reg
    → deregister gone reg ≡ ok next_reg
    → get name next_reg.table ≡ left_by gone name (get name reg.table)
unfolding left_by
get-deregister gone name reg {next_reg} c e =
    let (entry, _, same) = deregister-eq-ok gone reg e in
    let p : RegistryEntry → Bool = λ re. not (depends_on gone re) in
    subst (λ r. get name r.table ≡ left_by gone name (get name reg.table)) (sym same)
      (elim (eq_cases name gone) [
        | inl (here, t) ↦
            rw (t, here)
              (get-rows-none gone p (remove gone reg.table) (get-remove_same gone reg.table))
        | inr (n, f) ↦
            rw
              (
                f,
                get-rows name p (remove gone reg.table) (Distinct-remove gone reg.table c.distinct),
                get-remove_other name gone reg.table n,
              )
              refl
      ])

-- The entry's agent is the unit of the name, or the name is that of the machine of the entry.
abbrev pub GoesWith : Text → RegistryEntry → Type 0
GoesWith gone re =
    (agent_name re ≡ some gone)
    ⊎ ((vm : Text) × (vm_name re ≡ some vm) × (parse_vm_name gone ≡ some vm))

same_vm_iff :
    (a b : Option Text) → (same_vm a b ≡ true) ↔ ((vm : Text) × (a ≡ some vm) × (b ≡ some vm))
same_vm_iff none b = ((λ e. absurd (cc e)), (λ (vm, f, g). absurd (cc f)))
same_vm_iff (some a) none = ((λ e. absurd (cc e)), (λ (vm, f, g). absurd (cc g)))
same_vm_iff (some a) (some b) = (
  (λ e. (a, refl, ap some (sym ((eq_iff a b).0 e)))),
  (λ (vm, f, g).
      let a_is : a ≡ vm = cc f in let b_is : b ≡ vm = cc g in (eq_iff a b).1 (a_is ∙ sym b_is)),
)

depends_on_iff : (gone : Text) (re : RegistryEntry) → (depends_on gone re ≡ true) ↔ GoesWith gone re
unfolding depends_on
depends_on_iff gone re = (
  (λ e. elim (Bool-cases (agent_name re == some gone)) [
    | inl t ↦ inl ((eq_iff (agent_name re) (some gone)).0 t)
    | inr f ↦
        let other : same_vm (vm_name re) (parse_vm_name gone) ≡ true = rw f at e in
        inr ((same_vm_iff (vm_name re) (parse_vm_name gone)).0 other)
  ]),
  (λ g. elim g [
    | inl a ↦ rw ((eq_iff (agent_name re) (some gone)).1 a) refl
    | inr v ↦
        let other = (same_vm_iff (vm_name re) (parse_vm_name gone)).1 v in
        elim (Bool-cases (agent_name re == some gone)) [
          | inl t ↦ rw t refl
          | inr f ↦ rw (f, other) refl
        ]
  ]),
)

-- In a consistent registry a removal that succeeds takes exactly the entry of the name and the
-- entries that go with it: under every other name the entry stays as it was. An entry goes with a
-- name exactly if its agent has the name, or the name is that of its machine.
pub deregister-by_name :
    (gone name : Text) (reg : Registry) (next_reg : Registry)
    → IsConsistent reg
    → deregister gone reg ≡ ok next_reg
    → (by_name name next_reg ≡ context not_registered (left_by gone name (get name reg.table)))
      × ((re : RegistryEntry) → (depends_on gone re ≡ true) ↔ GoesWith gone re)
unfolding by_name
deregister-by_name gone name reg next_reg c e =
    (ap (context not_registered) (get-deregister gone name reg c e), depends_on_iff gone)

pub update_state-eq-ok :
    (name : Text) (us : UnitStatus) (reg : Registry) {next_reg : Registry}
    → update_state name us reg ≡ ok next_reg
    → (entry : RegistryEntry) × (get name reg.table ≡ some entry)
      × (next_reg ≡ updated_registry name us reg entry)
unfolding update_state
update_state-eq-ok name us reg {next_reg} e = elim (Option-cases (get name reg.table)) [
  | inl f ↦ absurd (ground arith)
  | inr (entry, f) ↦
      let done : ok (updated_registry name us reg entry) ≡ ok next_reg = rw (f, context) at e in
      (entry, f, cc)
]

-- A change of state that succeeds gives the entry of the name the new status, and leaves its other
-- fields and every other entry as they were.
pub update_state-by_name :
    (changed name : Text) (us : UnitStatus) (reg : Registry) (next_reg : Registry)
    → update_state changed us reg ≡ ok next_reg
    → by_name name next_reg ≡ (
        if name == changed
        then context not_registered (updated_entry us (get changed reg.table))
        else by_name name reg)
unfolding by_name
update_state-by_name changed name us reg next_reg e =
    let (entry, _, same) = update_state-eq-ok changed us reg e in
    elim (eq_cases name changed) [
      | inl (here, t) ↦ rw (t, same, here, get-set_status_same changed us reg.table) refl
      | inr (n, f) ↦ rw (f, same, get-set_status_other name changed us reg.table n) refl
    ]
