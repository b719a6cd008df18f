-- ===== src/Admin/Server/Services.antt =====
-- crates/admin/src/admin/server.rs: starting and stopping a unit on a machine.
use ghaf_givc.Prelude.{
  ◌≡◌, sym, ap, ◌∙◌, ◌⊎◌, inl, inr, Bool, true, false, ◌&&◌, ◌==◌, list_eq, option_eq, nat_eq, ok,
  ensure, unit_not_loaded,
}
use ghaf_givc.Text.{Text, codes}
use ghaf_givc.Admin.Types.{UnitStatus}
use ghaf_givc.Admin.Naming.{vm, agent_service}
use ghaf_givc.Admin.Server.World.{
  Env, World, Action, ◌>>=◌, ◌>>◌, pure, lift, gets, EndpointConfig, get_unit_status, start_unit,
}
use ghaf_givc.Admin.Server.Client.{get_remote_status, start_remote}
use ghaf_givc.Admin.Server.Endpoints.{agent_endpoint}
use ghaf_givc.Admin.Server.Units.{is_active, is_loaded, start_loaded, start_unit_on_vm}
use ghaf_givc.Admin.Server.Runs.{
  >>=-ends, ensure-ends, if-ends, answer, after_unit_call, unit_call-ends,
}

abbrev pub is_active_running : UnitStatus → Bool
is_active_running us = is_active us && (us.sub_state == codes "running")

-- The unit is loaded, and it was running or was told to start.
abbrev pub StartsUnit : Env → Text → EndpointConfig → World → World → Type 0
StartsUnit env unit ec w v =
    (status : UnitStatus) × (answer env w.calls ec (get_unit_status ec unit) ≡ ok status)
    × (is_loaded status ≡ true)
    × let asked = after_unit_call env ec (get_unit_status ec unit) w in
      ((is_active_running status ≡ true) × (v ≡ asked))
      ⊎ ((is_active_running status ≡ false)
          × ((started : UnitStatus) × (answer env asked.calls ec (start_unit ec unit) ≡ ok started))
          × (v ≡ after_unit_call env ec (start_unit ec unit) asked))

module _ (env : Env) (unit vmname : Text) where
  abbrev checked_start : EndpointConfig → UnitStatus → Action Text
  checked_start ec status =
      lift (ensure (is_loaded status) unit_not_loaded)
      >> (start_loaded env ec unit status >> pure (agent_service (vm vmname)))

  start_loaded-ends :
      (ec : EndpointConfig) (status : UnitStatus) (w v : World)
      → start_loaded env ec unit status w ≡ (ok tt, v)
      → ((is_active_running status ≡ true) × (v ≡ w))
        ⊎ ((is_active_running status ≡ false)
            × ((started : UnitStatus) × (answer env w.calls ec (start_unit ec unit) ≡ ok started))
            × (v ≡ after_unit_call env ec (start_unit ec unit) w))
  unfolding start_remote
  start_loaded-ends ec status w v e =
      elim (if-ends (is_active_running status) (pure tt) (start_remote env ec unit >> pure tt) e) [
        | inl (t, kept) ↦ inl (t, sym (ap (λ r. r.1) kept))
        | inr (f, told) ↦
            let (started, u, asked, done) =
              >>=-ends (start_remote env ec unit) (λ _. pure tt) w told in
            let (answered, same) = unit_call-ends env ec (start_unit ec unit) asked in
            inr (f, (started, answered), sym (ap (λ r. r.1) done) ∙ same)
      ]

  checked_start-ends :
      (ec : EndpointConfig) (status : UnitStatus) (w v : World) (registry_id : Text)
      → checked_start ec status w ≡ (ok registry_id, v)
      → (is_loaded status ≡ true)
        × (registry_id ≡ agent_service (vm vmname))
        × ((is_active_running status ≡ true) × (v ≡ w)
            ⊎ (is_active_running status ≡ false)
              × ((started : UnitStatus) × (answer env w.calls ec (start_unit ec unit) ≡ ok started))
              × (v ≡ after_unit_call env ec (start_unit ec unit) w))
  checked_start-ends ec status w v registry_id e =
      let (_, u, checked, e1) =
        >>=-ends (lift (ensure (is_loaded status) unit_not_loaded))
          (λ _. start_loaded env ec unit status >> pure (agent_service (vm vmname))) w e in
      let (loaded, same) = ensure-ends (is_loaded status) unit_not_loaded checked in
      let (_, x, done, e2) =
        >>=-ends (start_loaded env ec unit status) (λ _. pure (agent_service (vm vmname))) u e1 in
      (
        loaded,
        cc (ap (λ r. r.0) e2),
        start_loaded-ends ec status w v (
            ap (start_loaded env ec unit status) same
            ∙ (done ∙ ap (λ z. (ok tt, z)) (ap (λ r. r.1) e2))),
      )

-- A start of a unit that succeeds has asked the agent of the machine for the unit, which is loaded;
-- it has told the agent to start it exactly if it was not active and running; and it returns the
-- name of the agent.
pub start_unit_on_vm_sound :
    (env : Env) (unit vmname : Text) (w v : World) (registry_id : Text)
    → start_unit_on_vm env unit vmname w ≡ (ok registry_id, v)
    → (registry_id ≡ agent_service (vm vmname))
      × (ec : EndpointConfig) × (agent_endpoint (agent_service (vm vmname)) w.service ≡ ok ec)
      × StartsUnit env unit ec w v
unfolding start_unit_on_vm get_remote_status
start_unit_on_vm_sound env unit vmname w v registry_id e =
    let (ec, u, agent_is, e1) =
      >>=-ends (gets (agent_endpoint (agent_service (vm vmname))))
        (λ ec. get_remote_status env ec unit >>= checked_start env unit vmname ec) w e in
    let same_u : u ≡ w = sym (ap (λ r. r.1) agent_is) in
    let (status, x, asked, e2) =
      >>=-ends (get_remote_status env ec unit) (checked_start env unit vmname ec) u e1 in
    let (told, same_x) = unit_call-ends env ec (get_unit_status ec unit) asked in
    let at_x : x ≡ after_unit_call env ec (get_unit_status ec unit) w =
      same_x ∙ ap (after_unit_call env ec (get_unit_status ec unit)) same_u in
    let (loaded, named, done) =
      checked_start-ends env unit vmname ec status
        (after_unit_call env ec (get_unit_status ec unit) w) v registry_id
        (ap (checked_start env unit vmname ec status) (sym at_x) ∙ e2) in
    (
      named,
      ec,
      ap (λ r. r.0) agent_is,
      (
        status,
        ap (λ z. answer env z.calls ec (get_unit_status ec unit)) (sym same_u) ∙ told,
        loaded,
        done,
      ),
    )
