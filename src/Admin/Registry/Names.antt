-- ===== src/Admin/Registry/Names.antt =====
-- crates/admin/src/admin/registry.rs and crates/admin/src/utils/naming.rs: unique entry names, and
-- the names that the parsers read back.
use ghaf_givc.Prelude.{
  ℕ, zero, suc, ◌+◌, ◌≤◌, ◌<◌, ◌≡◌, refl, sym, ap, ◌∙◌, ◌↔◌, ◌⊎◌, inl, inr, true, false, some, List,
  [], ◌∷◌, ◌++◌, arith, Bool-cases, Option-cases, eq_cases, list_eq, option_eq, nat_eq, length, ok,
}
use mathlib.Core.List.{append_assoc}
use ghaf_givc.Text.{
  Text, codes, decimal, decimal_injective, decimal-Lacks, contains, AllUsed, AllUsed-cons,
  used_enough, strip_prefix-append, strip_suffix-append, strip_prefix_sound, strip_suffix_sound,
  rsplit_once-append, pos, i32_max, parse_i32-decimal, strip_suffix, strip_prefix,
}
use ghaf_givc.Admin.Naming.{vm, vm_name_text, vm_service, parse_vm_name, parse_application_name}
use ghaf_givc.Admin.Registry.{
  Registry, keys, entry_name, unique_from, create_unique_entry_name, Table,
}

++-cancel-left : (s : Text) {t u : Text} → s ++ t ≡ s ++ u → t ≡ u
++-cancel-left s {t} {u} e =
    let same : some t ≡ some u =
      sym (strip_prefix-append s t) ∙ (ap (strip_prefix s) e ∙ strip_prefix-append s u) in
    cc same

++-cancel-right : (s : Text) {t u : Text} → t ++ s ≡ u ++ s → t ≡ u
++-cancel-right s {t} {u} e =
    let same : some t ≡ some u =
      sym (strip_suffix-append t s) ∙ (ap (strip_suffix s) e ∙ strip_suffix-append u s) in
    cc same

entry_name_injective : (name : Text) (m n : ℕ) → entry_name name m ≡ entry_name name n → m ≡ n
entry_name_injective name m n e =
    decimal_injective m n
      (++-cancel-right (codes ".service") (++-cancel-left (b'@' ∷ []) (++-cancel-left name e)))

-- A name with the counter that is not among the used ones, at or above the first counter.
pub record IsUnused (name : Text) (from : ℕ) (used : List Text) (new_name : Text) : Type 0 where
  pub counter : ℕ
  pub at_least : from ≤ counter
  pub named : new_name ≡ entry_name name counter
  pub unused : contains used new_name ≡ false
  pub earlier_used : (n : ℕ) → from ≤ n → n < counter → contains used (entry_name name n) ≡ true

unique_from_cases :
    (fuel counter : ℕ) (name : Text) (used : List Text)
    → ((new_name : Text) × (unique_from fuel counter name used ≡ some new_name)
        × IsUnused name counter used new_name)
      ⊎ AllUsed (entry_name name) fuel counter used
unfolding unique_from
unique_from_cases zero counter name used =
    inr (unfold AllUsed in λ n from below. absurd (omega arith))
unique_from_cases (suc fuel) counter name used =
    elim (Bool-cases (contains used (entry_name name counter))) [
      | inl taken ↦ elim (unique_from_cases fuel (counter + 1) name used) [
        | inl (new_name, e, u) ↦ inl (
          new_name,
          rw (taken, unique_from) e,
          record {
            counter = u.counter;
            at_least = omega (arith, u.at_least);
            named = u.named;
            unused = u.unused;
            earlier_used = λ n from below. elim (eq_cases n counter) [
              | inl (same, _) ↦ rw same taken
              | inr (other, _) ↦ u.earlier_used n (omega arith) below
            ];
          },
        )
        | inr all ↦ inr (AllUsed-cons (entry_name name) fuel counter used taken all)
      ]
      | inr free ↦ inl (
        entry_name name counter,
        rw (free, unique_from),
        record {
          counter = counter;
          at_least = omega arith;
          named = refl;
          unused = free;
          earlier_used = λ n from below. absurd (omega arith);
        },
      )
    ]

length-keys : (t : Table) → length (keys t) ≡ length t
length-keys [] = refl
length-keys (row ∷ t) = omega (arith, length-keys t)

-- The loop ends: a unique entry name is found for every name, which no entry of the registry has,
-- and its counter is the least one for which this is so.
pub create_unique_entry_name_total :
    (name : Text) (reg : Registry)
    → (new_name : Text) × (create_unique_entry_name name reg ≡ some new_name)
      × IsUnused name 0 (keys reg.table) new_name
unfolding create_unique_entry_name
create_unique_entry_name_total name reg =
    elim (unique_from_cases (suc (length reg.table)) 0 name (keys reg.table)) [
      | inl found ↦ found
      | inr all ↦ absurd (
          omega (
            arith,
            length-keys reg.table,
            used_enough (entry_name name) (entry_name_injective name) (suc (length reg.table)) 0
                (keys reg.table) all,
          ))
    ]

entry_name_stem :
    (name : Text) (n : ℕ) → entry_name name n ≡ (name ++ (b'@' ∷ decimal n)) ++ codes ".service"
entry_name_stem name n = sym (append_assoc name (b'@' ∷ decimal n) (codes ".service"))

-- The name built from a text and a number that an `i32` holds is read as this text and this number.
parse_application_name-entry_name :
    (name : Text) (n : ℕ)
    → n ≤ i32_max
    → parse_application_name (entry_name name n) ≡ ok (name, pos n)
unfolding parse_application_name
parse_application_name-entry_name name n h =
    rw
      (
        entry_name_stem name n,
        strip_suffix-append (name ++ (b'@' ∷ decimal n)) (codes ".service"),
        rsplit_once-append b'@' name (decimal n) (decimal-Lacks b'@' n refl),
        parse_i32-decimal n h,
      )
      refl

-- A unit's name is read as a machine's name exactly if it is the text that `vm_service` writes for
-- this machine.
parse_vm_name_iff :
    (unit machine : Text) → (parse_vm_name unit ≡ some machine) ↔ (unit ≡ vm_service (vm machine))
unfolding parse_vm_name vm_service vm_name_text
parse_vm_name_iff unit machine = (
  λ e. elim (Option-cases (strip_prefix (codes "microvm@") unit)) [
    | inl f ↦ absurd (ground arith)
    | inr (rest, f) ↦
        let stripped : strip_suffix (codes ".service") rest ≡ some machine = rw f at e in
        strip_prefix_sound (codes "microvm@") unit f
        ∙ ap (λ r. codes "microvm@" ++ r) (strip_suffix_sound (codes ".service") rest stripped)
  ],
  λ e.
      rw (e, strip_prefix-append (codes "microvm@") (machine ++ codes ".service"))
        (strip_suffix-append machine (codes ".service")),
)
