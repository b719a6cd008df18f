-- ===== src/Admin/Server/Recovery.antt =====
-- crates/admin/src/admin/server.rs: how the monitor finds out that an application has exited.
use ghaf_givc.Prelude.{
  ◌≡◌, refl, ap, ◌∙◌, inl, inr, Bool, true, false, not, ◌||◌, none, some, arith, if◌then◌else◌,
  &&-eq-true, Option-cases, ◌==◌, eq_iff, eq_refl, list_beq, list_eq, option_eq, nat_eq, Result, ok,
  err, panic, context, not_registered,
}
use ghaf_givc.Text.{Text, codes}
use ghaf_givc.Admin.Types.{UnitStatus, app_vm, app, is_valid, is_exitted}
use ghaf_givc.Admin.Entry.{RegistryEntry}
use ghaf_givc.Admin.Registry.{
  Registry, by_name, deregister, deregister_entry, update_state, updated_registry, with_status, get,
  depends_on,
}
use ghaf_givc.Admin.Registry.Table.{updated_entry, keep}
use ghaf_givc.Admin.Registry.Effects.{deregister-by_name, left_by, update_state-by_name}
use ghaf_givc.Admin.Registry.Invariant.{Reachable, then_step, updates, Reachable-IsConsistent}
use ghaf_givc.Admin.Server.World.{
  Env, World, continue, pure, on_error, change, change_to, with_registry,
}
use ghaf_givc.Admin.Server.Units.{entry_status, is_active}
use ghaf_givc.Admin.Server.Monitor.{
  drop_exitted, handle_error, handle_error_of, save_and_recover, monitor_routine,
}

is_exitted-not_active : (us : UnitStatus) → is_exitted us ≡ true → is_active us ≡ false
unfolding is_exitted list_beq
is_exitted-not_active us h =
    let (inactive, _) =
      &&-eq-true (us.active_state == codes "inactive") (us.sub_state == codes "dead") h in
    let same : us.active_state ≡ codes "inactive" =
      (eq_iff us.active_state (codes "inactive")).0 inactive in
    ap (λ s. s == codes "active") same

abbrev IsApp : RegistryEntry → Type 0
IsApp e = e.unit_type ≡ record { vm = app_vm; service = app }

module _ (env : Env) (e : RegistryEntry) (is_app : IsApp e) where
  handle_error-app : (w : World) → handle_error env e w ≡ drop_exitted env e w
  unfolding handle_error
  handle_error-app w = ap (λ ty. handle_error_of env ty.vm ty.service e w) is_app

  handle_error-kept : (w : World) → is_exitted e.status ≡ false → handle_error env e w ≡ (ok tt, w)
  handle_error-kept w f =
      handle_error-app w ∙ ap (λ b. (if b then change (deregister e.name) else pure tt) w) f

  handle_error-dropped :
      (w : World) → is_exitted e.status ≡ true → handle_error env e w ≡ change (deregister e.name) w
  handle_error-dropped w t =
      handle_error-app w ∙ ap (λ b. (if b then change (deregister e.name) else pure tt) w) t

by_name-get :
    (name : Text) (reg : Registry) {e : RegistryEntry}
    → by_name name reg ≡ ok e
    → get name reg.table ≡ some e
unfolding by_name
by_name-get name reg {e} h = elim (Option-cases (get name reg.table)) [
  | inl f ↦ let no : err not_registered ≡ ok e = rw f at h in absurd (cc no)
  | inr (x, f) ↦ let same : ok x ≡ ok e = rw f at h in f ∙ ap some (cc same)
]

update_state-registered :
    (name : Text) (us : UnitStatus) (reg : Registry) {e : RegistryEntry}
    → by_name name reg ≡ ok e
    → update_state name us reg ≡ ok (updated_registry name us reg e)
unfolding update_state
update_state-registered name us reg h = rw (by_name-get name reg h) refl

deregister-registered :
    (name : Text) (reg : Registry) {e : RegistryEntry}
    → by_name name reg ≡ ok e
    → deregister name reg ≡ ok (deregister_entry name reg e)
unfolding deregister
deregister-registered name reg h = rw (by_name-get name reg h) refl

-- Under its own name a removal leaves nothing.
by_name-deregistered :
    (name : Text) (reg : Registry) {e : RegistryEntry}
    → Reachable reg
    → by_name name reg ≡ ok e
    → by_name name (deregister_entry name reg e) ≡ err not_registered
unfolding left_by
by_name-deregistered name reg {e} r h =
    (deregister-by_name name name reg (deregister_entry name reg e) (Reachable-IsConsistent reg r)
      (deregister-registered name reg h)).0
    ∙ ap
        (λ b.
          context not_registered
            (if b then none else keep (λ re. not (depends_on name re)) (get name reg.table)))
        (eq_refl name)

by_name-updated :
    (name : Text) (us : UnitStatus) (reg : Registry) {e : RegistryEntry}
    → by_name name reg ≡ ok e
    → by_name name (updated_registry name us reg e) ≡ ok (with_status us e)
by_name-updated name us reg {e} h =
    update_state-by_name name name us reg (updated_registry name us reg e)
      (update_state-registered name us reg h)
    ∙ (ap
          (λ b.
            if b
            then context not_registered (updated_entry us (get name reg.table))
            else by_name name reg)
          (eq_refl name)
        ∙ ap (λ o. context not_registered (updated_entry us o)) (by_name-get name reg h))

-- The agent did not answer, or the unit is not active.
abbrev pub IsDown : Result UnitStatus → Type 0
IsDown (ok us) = is_active us ≡ false
IsDown (err e) = Unit
IsDown panic = ⊥

module _ (env : Env) (e : RegistryEntry) (is_app : IsApp e) where
  save-down :
      (us : UnitStatus) (u : World) {entry : RegistryEntry}
      → is_active us ≡ false
      → by_name e.name u.service.registry ≡ ok entry
      → save_and_recover env e us u
        ≡ handle_error env e (with_registry (updated_registry e.name us u.service.registry entry) u)
  save-down us u {entry} f h =
      ap
        (λ r.
          continue
            (λ _. if not (is_valid us) || not (is_active us) then handle_error env e else pure tt)
            (change_to r u))
        (update_state-registered e.name us u.service.registry h)
      ∙ ap
          (λ b.
            (if b then handle_error env e else pure tt)
              (with_registry (updated_registry e.name us u.service.registry entry) u))
          (or-true (not (is_valid us)) (ap not f))
    where
      or-true : (a : Bool) {b : Bool} → b ≡ true → (a || b) ≡ true
      or-true a {b} t = ground arith

  -- A round with the status of a unit that had not exited before.
  round-kept :
      (us : UnitStatus) (w u : World) {entry : RegistryEntry}
      → is_exitted e.status ≡ false
      → entry_status env e w ≡ (ok us, u)
      → is_active us ≡ false
      → by_name e.name u.service.registry ≡ ok entry
      → monitor_routine env e w
        ≡ (ok tt, with_registry (updated_registry e.name us u.service.registry entry) u)
  unfolding monitor_routine
  round-kept us w u {entry} f asked down h =
      ap (on_error (handle_error env e) (save_and_recover env e)) asked
      ∙ (save-down us u down h
          ∙ handle_error-kept env e is_app
              (with_registry (updated_registry e.name us u.service.registry entry) u) f)

  -- A round in which a unit that had exited before is down.
  round-dropped :
      (r : Result UnitStatus) (w u : World) {entry : RegistryEntry}
      → is_exitted e.status ≡ true
      → entry_status env e w ≡ (r, u)
      → IsDown r
      → Reachable u.service.registry
      → by_name e.name u.service.registry ≡ ok entry
      → by_name e.name (monitor_routine env e w).1.service.registry ≡ err not_registered
  unfolding monitor_routine
  round-dropped (ok us) w u {entry} t asked down reach h =
      let reg = u.service.registry in
      let saved = updated_registry e.name us reg entry in
      ap
        (λ r.
          by_name e.name
            (on_error (handle_error env e) (save_and_recover env e) r).1.service.registry)
        asked
      ∙ (ap (λ r. by_name e.name r.1.service.registry) (save-down us u down h)
          ∙ (ap (λ r. by_name e.name r.1.service.registry)
                (handle_error-dropped env e is_app (with_registry saved u) t)
              ∙ (ap (λ r. by_name e.name (change_to r (with_registry saved u)).1.service.registry)
                    (deregister-registered e.name saved (by_name-updated e.name us reg h))
                  ∙ by_name-deregistered e.name saved
                      (then_step reach
                        (updates e.name us (update_state-registered e.name us reg h)))
                      (by_name-updated e.name us reg h))))
  round-dropped (err why) w u {entry} t asked down reach h =
      ap
        (λ r.
          by_name e.name
            (on_error (handle_error env e) (save_and_recover env e) r).1.service.registry)
        asked
      ∙ (ap (λ r. by_name e.name r.1.service.registry) (handle_error-dropped env e is_app u t)
          ∙ (ap (λ r. by_name e.name (change_to r u).1.service.registry)
                (deregister-registered e.name u.service.registry h)
              ∙ by_name-deregistered e.name u.service.registry reach h))
  round-dropped panic w u t asked down reach h = absurd down

-- A registered application that had not exited, and whose agent now says that it has, is still
-- registered after the round of the monitor that finds this out, with the new status. The next
-- round for it removes it, if its agent does not answer or it is still not active, whatever the
-- server did in between.
pub exitted_app_is_dropped :
    (env : Env) (e : RegistryEntry) (us : UnitStatus) (w u : World) (next_w next_u : World)
    (r : Result UnitStatus) (now : RegistryEntry)
    → e.unit_type ≡ record { vm = app_vm; service = app }
    → is_exitted e.status ≡ false
    → entry_status env e w ≡ (ok us, u)
    → is_exitted us ≡ true
    → by_name e.name u.service.registry ≡ ok e
    → entry_status env (with_status us e) next_w ≡ (r, next_u)
    → IsDown r
    → Reachable next_u.service.registry
    → by_name e.name next_u.service.registry ≡ ok now
    → (by_name e.name (monitor_routine env e w).1.service.registry ≡ ok (with_status us e))
      × (by_name e.name (monitor_routine env (with_status us e) next_w).1.service.registry
          ≡ err not_registered)
exitted_app_is_dropped env e us w u next_w next_u r now is_app f asked t h asked_again down reach
      again =
    (
      ap (λ x. by_name e.name x.1.service.registry)
            (round-kept env e is_app us w u f asked (is_exitted-not_active us t) h)
          ∙ by_name-updated e.name us u.service.registry h,
      round-dropped env (with_status us e) is_app r next_w next_u t asked_again down reach again,
    )
