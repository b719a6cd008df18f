-- ===== src/Admin/Registry/Replay.antt =====
-- crates/admin/src/admin/registry.rs: the events of each operation, as a subscriber applies them.
use ghaf_givc.Prelude.{
  ◌≡◌, refl, sym, ap, ◌∙◌, inl, inr, true, false, not, Option, none, some, List, [], ◌∷◌, ◌++◌, map,
  if◌then◌else◌, Bool-cases, Option-cases, ◌==◌, eq_refl, eq_cases, ne→eq_false, list_eq, option_eq,
  nat_eq, ok,
}
use ghaf_givc.Text.{Text}
use ghaf_givc.Admin.Types.{UnitStatus}
use ghaf_givc.Admin.Query.{Event, unit_status_changed, unit_registered}
use ghaf_givc.Admin.Entry.{RegistryEntry, entry_into}
use ghaf_givc.Admin.Registry.{
  insert, set_status, replaced, remove, rows, with_status, depends_on, Registry, new, register,
  deregister, update_state, get, values, shutdown,
}
use ghaf_givc.Admin.Registry.Table.{
  get-rows, get-remove_other, Distinct-remove, Named-remove, Named-rows, get-insert, keep,
  get-set_status_same, get-set_status_other, Named-get, Named,
}
use ghaf_givc.Admin.Registry.Effects.{get-deregister, left_by, update_state-eq-ok}
use ghaf_givc.Admin.Registry.Invariant.{
  IsConsistent, Step, registers, deregisters, updates, Reachable, start, then_step,
  Reachable-IsConsistent, deregister-eq-ok,
}
use ghaf_givc.Admin.Registry.Views.{
  replay, summary, view_of, replay-append, replay-agree, unless_there, replay-shutdowns,
}

-- The events that a step sends, behind those sent before it.
pub data Sends (reg next_reg : Registry) : Type 0 where
  sends :
      (es : List Event)
      → next_reg.sent ≡ reg.sent ++ es
      → ((name : Text) → replay es (view_of reg) name ≡ view_of next_reg name)
      → Sends reg next_reg

-- The event for a replaced entry changes nothing under the other names.
replay-replaced :
    (reg : Registry) (changed name : Text)
    → Named reg.table
    → (changed == name) ≡ false
    → replay (replaced (get changed reg.table)) (view_of reg) name ≡ view_of reg name
unfolding replay entry_into
replay-replaced reg changed name h f = elim (Option-cases (get changed reg.table)) [
  | inl e ↦ rw e refl
  | inr (old, e) ↦ rw (e, Named-get changed reg.table h e, f) refl
]

replay-registered :
    (entry : RegistryEntry) (reg : Registry) (name : Text)
    → Named reg.table
    → replay
        (unit_registered (entry_into entry) ∷ [])
        (replay (replaced (get entry.name reg.table)) (view_of reg))
        name
      ≡ summary (get name (insert entry.name entry reg.table))
unfolding replay entry_into
replay-registered entry reg name h = elim (Bool-cases (entry.name == name)) [
  | inl e ↦ rw (get-insert name entry.name entry reg.table, e) refl
  | inr e ↦
      rw (get-insert name entry.name entry reg.table, e) (replay-replaced reg entry.name name h e)
]

register-Sends :
    (entry : RegistryEntry) (reg : Registry) → IsConsistent reg → Sends reg (register entry reg)
unfolding register
register-Sends entry reg c =
    let shutdowns = replaced (get entry.name reg.table) in
    let registered = unit_registered (entry_into entry) ∷ [] in
    sends (shutdowns ++ registered) refl (λ name.
      ap (λ v. v name) (replay-append shutdowns registered (view_of reg))
      ∙ replay-registered entry reg name c.named)

told_by-keep :
    (gone : Text) (o : Option RegistryEntry)
    → unless_there (keep (depends_on gone) o) (summary o)
      ≡ summary (keep (λ re. not (depends_on gone re)) o)
told_by-keep gone none = refl
told_by-keep gone (some x) = elim (Bool-cases (depends_on gone x)) [
  | inl t ↦ rw t refl
  | inr f ↦ rw f refl
]

-- What the events of a removal tell of an entry is what the removal leaves of it.
told_by-left_by :
    (gone name : Text) (o : Option RegistryEntry)
    → (if gone == name then none else unless_there (keep (depends_on gone) o) (summary o))
      ≡ summary (left_by gone name o)
unfolding left_by
told_by-left_by gone name o = elim (eq_cases name gone) [
  | inl (same, e) ↦ let back : (gone == name) ≡ true = rw same (eq_refl gone) in rw (e, back) refl
  | inr (n, e) ↦
      let back : (gone == name) ≡ false = ne→eq_false gone name (λ m. n (sym m)) in
      rw (e, back) (told_by-keep gone o)
]

replay-dependents :
    (gone name : Text) (reg : Registry)
    → IsConsistent reg
    → (if gone == name
        then none
        else replay
            (map shutdown (values (rows (depends_on gone) (remove gone reg.table))))
            (view_of reg)
            name)
      ≡ (if gone == name
          then none
          else unless_there (keep (depends_on gone) (get name reg.table)) (view_of reg name))
replay-dependents gone name reg c = elim (eq_cases gone name) [
  | inl (_, e) ↦ rw e refl
  | inr (n, e) ↦
      let left = remove gone reg.table in
      let p = depends_on gone in
      rw
        (
          e,
          replay-shutdowns (rows p left) (view_of reg) name
              (Named-rows p left (Named-remove gone reg.table c.named)),
          get-rows name p left (Distinct-remove gone reg.table c.distinct),
          get-remove_other name gone reg.table (λ m. n (sym m)),
        )
        refl
]

replay-deregistered :
    (gone name : Text) (reg : Registry) (entry : RegistryEntry)
    → IsConsistent reg
    → get gone reg.table ≡ some entry
    → replay
        (map shutdown (values (rows (depends_on gone) (remove gone reg.table)))
          ++ (shutdown entry ∷ []))
        (view_of reg)
        name
      ≡ summary (left_by gone name (get name reg.table))
unfolding replay entry_into
replay-deregistered gone name reg entry c f =
    let h : entry.name ≡ gone = Named-get gone reg.table c.named f in
    let left = remove gone reg.table in
    let p = depends_on gone in
    ap (λ v. v name)
      (replay-append (map shutdown (values (rows p left))) (shutdown entry ∷ []) (view_of reg))
    ∙ (rw h (replay-dependents gone name reg c) ∙ told_by-left_by gone name (get name reg.table))

deregister-Sends :
    (gone : Text) (reg : Registry) {next_reg : Registry}
    → IsConsistent reg
    → deregister gone reg ≡ ok next_reg
    → Sends reg next_reg
deregister-Sends gone reg {next_reg} c e =
    let (entry, f, same) = deregister-eq-ok gone reg e in
    sends
      (map shutdown (values (rows (depends_on gone) (remove gone reg.table)))
        ++ (shutdown entry ∷ []))
      (ap (λ r. r.sent) same)
      (λ name.
        replay-deregistered gone name reg entry c f
        ∙ ap summary (sym (get-deregister gone name reg c e)))

replay-updated :
    (changed name : Text) (us : UnitStatus) (reg : Registry) (entry : RegistryEntry)
    → IsConsistent reg
    → get changed reg.table ≡ some entry
    → replay (unit_status_changed (entry_into (with_status us entry)) ∷ []) (view_of reg) name
      ≡ summary (get name (set_status changed us reg.table))
unfolding replay entry_into
replay-updated changed name us reg entry c f =
    let h : entry.name ≡ changed = Named-get changed reg.table c.named f in
    elim (eq_cases changed name) [
      | inl (same, e) ↦
          let test : (entry.name == name) ≡ true = rw h e in
          rw (test, ← same, get-set_status_same changed us reg.table, f) refl
      | inr (n, e) ↦
          let test : (entry.name == name) ≡ false = rw h e in
          rw (test, get-set_status_other name changed us reg.table (λ m. n (sym m))) refl
    ]

update_state-Sends :
    (name : Text) (us : UnitStatus) (reg : Registry) {next_reg : Registry}
    → IsConsistent reg
    → update_state name us reg ≡ ok next_reg
    → Sends reg next_reg
update_state-Sends name us reg {next_reg} c e =
    let (entry, f, same) = update_state-eq-ok name us reg e in
    sends (unit_status_changed (entry_into (with_status us entry)) ∷ []) (ap (λ r. r.sent) same)
      (λ n. replay-updated name n us reg entry c f ∙ ap (λ r. summary (get n r.table)) (sym same))

pub Step-Sends :
    {reg next_reg : Registry} → IsConsistent reg → Step reg next_reg → Sends reg next_reg
Step-Sends {reg} c (registers entry) = register-Sends entry reg c
Step-Sends {reg} c (deregisters name e) = deregister-Sends name reg c e
Step-Sends {reg} c (updates name us e) = update_state-Sends name us reg c e

Sends-view :
    (reg next_reg : Registry) (name : Text)
    → Sends reg next_reg
    → replay reg.sent (λ n. none) name ≡ view_of reg name
    → replay next_reg.sent (λ n. none) name ≡ view_of next_reg name
Sends-view reg next_reg name (sends es sent views) h =
    ap (λ l. replay l (λ n. none) name) sent
    ∙ (ap (λ v. v name) (replay-append reg.sent es (λ n. none))
        ∙ (replay-agree es (replay reg.sent (λ n. none)) (view_of reg) name h ∙ views name))

-- In every reachable state the events sent so far, replayed in their order, tell a subscriber of
-- each name exactly what the registry holds under it.
pub replay-view_of :
    (reg : Registry) (name : Text)
    → Reachable reg
    → replay reg.sent (λ n. none) name ≡ view_of reg name
unfolding new replay get
replay-view_of _ name start = refl
replay-view_of next_reg name (then_step {reg} r s) =
    Sends-view reg next_reg name (Step-Sends (Reachable-IsConsistent reg r) s)
      (replay-view_of reg name r)
