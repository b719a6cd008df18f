-- ===== src/Admin/Server/Machines.antt =====
-- crates/admin/src/admin/server.rs: what a start or a stop that succeeds has done, call by call.
use ghaf_givc.Prelude.{
  ◌≡◌, sym, ap, subst, ◌∙◌, ◌⊎◌, inl, inr, true, false, if◌then◌else◌, list_eq, option_eq, nat_eq,
  ok, ensure, vm_not_loaded, unable_to_launch,
}
use ghaf_givc.Text.{Text}
use ghaf_givc.Admin.Types.{UnitStatus}
use ghaf_givc.Admin.Server.World.{
  ◌>>=◌, ◌>>◌, pure, lift, gets, Env, World, EndpointConfig, get_unit_status, start_unit, sleep,
  after_call, pause_for,
}
use ghaf_givc.Admin.Server.Client.{get_remote_status, start_remote}
use ghaf_givc.Admin.Server.Endpoints.{host_endpoint}
use ghaf_givc.Admin.Server.Units.{
  start_vm, launch, confirm, start_checked, is_active, is_loaded, vm_startup_time,
}
use ghaf_givc.Admin.Server.Runs.{
  >>=-ends, ensure-ends, if-ends, answer, after_unit_call, unit_call-ends,
}

-- The machine was started and, ten seconds later, active.
abbrev pub Launched : Env → EndpointConfig → Text → World → World → Type 0
Launched env ec name w v =
    let booting =
      after_call env (sleep vm_startup_time) (after_unit_call env ec (start_unit ec name) w) in
    (first : UnitStatus) × (answer env w.calls ec (start_unit ec name) ≡ ok first)
    × (last : UnitStatus) × (answer env booting.calls ec (get_unit_status ec name) ≡ ok last)
    × (is_active last ≡ true)
    × (v ≡ after_unit_call env ec (get_unit_status ec name) booting)

launch-Launched :
    (env : Env) (ec : EndpointConfig) (name : Text) (w v : World)
    → launch env ec name w ≡ (ok tt, v)
    → Launched env ec name w v
unfolding launch start_remote get_remote_status pause_for
launch-Launched env ec name w v e =
    let (first, u, s, e1) =
      >>=-ends (start_remote env ec name)
        (λ _. pause_for env vm_startup_time >> confirm env ec name) w e in
    let (told, same) = unit_call-ends env ec (start_unit ec name) s in
    let (_, x, slept, e2) =
      >>=-ends (pause_for env vm_startup_time) (λ _. confirm env ec name) u e1 in
    let at_x : after_call env (sleep vm_startup_time)
          (after_unit_call env ec (start_unit ec name) w)
        ≡ x =
      ap (after_call env (sleep vm_startup_time)) (sym same) ∙ ap (λ r. r.1) slept in
    let (last, y, q, e3) =
      >>=-ends (get_remote_status env ec name)
        (λ status. lift (ensure (is_active status) unable_to_launch)) x e2 in
    let (seen, then_) = unit_call-ends env ec (get_unit_status ec name) q in
    let (active, end) = ensure-ends (is_active last) unable_to_launch e3 in
    (
      first,
      told,
      last,
      ap (λ z. answer env z.calls ec (get_unit_status ec name)) at_x ∙ seen,
      active,
      sym end ∙ (then_ ∙ ap (after_unit_call env ec (get_unit_status ec name)) (sym at_x)),
    )

-- The host's agent said that the machine is loaded, and it was active or was launched.
abbrev pub StartsVm : Env → Text → World → World → Type 0
StartsVm env name w v =
    (ec : EndpointConfig) × (host_endpoint w.service ≡ ok ec)
    × (status : UnitStatus) × (answer env w.calls ec (get_unit_status ec name) ≡ ok status)
    × (is_loaded status ≡ true)
    × let asked = after_unit_call env ec (get_unit_status ec name) w in
      ((is_active status ≡ true) × (v ≡ asked))
      ⊎ ((is_active status ≡ false) × Launched env ec name asked v)

-- A start of a machine that succeeds found it loaded. It found it active, and did nothing more; or
-- it started it, waited ten seconds, and found it active then.
pub start_vm_sound :
    (env : Env) (name : Text) (w v : World)
    → start_vm env name w ≡ (ok tt, v)
    → StartsVm env name w v
unfolding start_vm get_remote_status
start_vm_sound env name w v e =
    let (ec, u, host_is, e1) =
      >>=-ends (gets host_endpoint)
        (λ ec. get_remote_status env ec name >>= start_checked env ec name) w e in
    let same_u : w ≡ u = ap (λ r. r.1) host_is in
    let (status, x, asked, e2) =
      >>=-ends (get_remote_status env ec name) (start_checked env ec name) u e1 in
    let (told, same_x) = unit_call-ends env ec (get_unit_status ec name) asked in
    let at_x : after_unit_call env ec (get_unit_status ec name) w ≡ x =
      ap (after_unit_call env ec (get_unit_status ec name)) same_u ∙ sym same_x in
    let (_, y, checked, e3) =
      >>=-ends (lift (ensure (is_loaded status) vm_not_loaded))
        (λ _. if is_active status then pure tt else launch env ec name) x e2 in
    let (loaded, same_y) = ensure-ends (is_loaded status) vm_not_loaded checked in
    let at_y = at_x ∙ same_y in
    (
      ec,
      ap (λ r. r.0) host_is,
      status,
      ap (λ z. answer env z.calls ec (get_unit_status ec name)) same_u ∙ told,
      loaded,
      elim (if-ends (is_active status) (pure tt) (launch env ec name) e3) [
        | inl (t, done) ↦ inl (t, sym (at_y ∙ ap (λ r. r.1) done))
        | inr (f, launched) ↦ inr (
          f,
          subst (λ z. Launched env ec name z v) (sym at_y)
              (launch-Launched env ec name y v launched),
        )
      ],
    )
