-- ===== src/Admin/Server/Launch.antt =====
-- crates/admin/src/admin/server.rs: starting an application.
use ghaf_givc.Prelude.{
  ◌≡◌, refl, sym, ap, subst, ◌∙◌, ◌⊎◌, inl, inr, true, false, some, if◌then◌else◌, Option-cases,
  eq_refl, list_eq, option_eq, nat_eq, Result, ok, err, panic,
}
use ghaf_givc.Text.{Text}
use ghaf_givc.Admin.Types.{UnitStatus, app_vm, app}
use ghaf_givc.Admin.Naming.{VmName, agent_service, vm_service}
use ghaf_givc.Admin.Entry.{RegistryEntry, managed}
use ghaf_givc.Admin.Registry.{Registry, register, by_name, create_unique_entry_name}
use ghaf_givc.Admin.Registry.Effects.{register-by_name}
use ghaf_givc.Admin.Server.World.{
  Env, World, ◌>>=◌, ◌>>◌, pure, gets, on_error, change, with_registry, EndpointConfig,
  start_application as start_application_call,
}
use ghaf_givc.Admin.Server.Client.{start_application}
use ghaf_givc.Admin.Server.Endpoints.{agent_endpoint}
use ghaf_givc.Admin.Server.Units.{start_vm, is_active}
use ghaf_givc.Admin.Server.Apps.{
  ApplicationRequest, app_vm_name, app_entry, ensure_agent, register_active, start_app, unique_name,
  start_agent, start_on, start_unit_as, register_as,
}
use ghaf_givc.Admin.Server.Machines.{StartsVm, start_vm_sound}
use ghaf_givc.Admin.Server.Runs.{>>=-ends, if-ends, answer, after_unit_call, unit_call-ends}

unique_name-eq-ok :
    (name : Text) (reg : Registry) {unique : Text}
    → unique_name name reg ≡ ok unique
    → create_unique_entry_name name reg ≡ some unique
unique_name-eq-ok name reg {unique} e = elim (Option-cases (create_unique_entry_name name reg)) [
  | inl f ↦ let no : panic ≡ ok unique = rw f at e in absurd (cc no)
  | inr (s, f) ↦ let same : ok s ≡ ok unique = rw f at e in f ∙ ap some (cc same)
]

-- The agent was registered; or its machine was started, and the agent is registered now.
abbrev pub HasAgent : Env → VmName → World → World → Type 0
HasAgent env machine w u =
    ((e : RegistryEntry) × (by_name (agent_service machine) w.service.registry ≡ ok e) × (u ≡ w))
    ⊎ (StartsVm env (vm_service machine) w u
        × (e : RegistryEntry) × (by_name (agent_service machine) u.service.registry ≡ ok e))

ensure_agent-HasAgent :
    (env : Env) (machine : VmName) (w u : World)
    → ensure_agent env machine w ≡ (ok tt, u)
    → HasAgent env machine w u
unfolding ensure_agent
ensure_agent-HasAgent env machine w u e =
    split (by_name (agent_service machine) w.service.registry) refl e
  where
    split :
        (r : Result RegistryEntry)
        → by_name (agent_service machine) w.service.registry ≡ r
        → on_error (start_agent env machine) (λ _. pure tt) (r, w) ≡ (ok tt, u)
        → HasAgent env machine w u
    split (ok entry) f h = inl (entry, f, sym (ap (λ r. r.1) h))
    split (err why) f h =
        let (_, x, launched, h1) =
          >>=-ends (start_vm env (vm_service machine))
            (λ _. gets (λ s. by_name (agent_service machine) s.registry) >> pure tt) w h in
        let (entry, y, found, h2) =
          >>=-ends (gets (λ s. by_name (agent_service machine) s.registry)) (λ _. pure tt) x h1 in
        let same : x ≡ u = ap (λ r. r.1) found ∙ ap (λ r. r.1) h2 in
        inr (
          subst (StartsVm env (vm_service machine) w) same
              (start_vm_sound env (vm_service machine) w x launched),
          entry,
          ap (λ z. by_name (agent_service machine) z.service.registry) (sym same)
              ∙ ap (λ r. r.0) found,
        )
    split panic f h = cc

-- The entry of a started application: managed by the agent of its machine, and watched.
abbrev pub managed_entry : VmName → UnitStatus → RegistryEntry
managed_entry machine status = record {
  name = status.name;
  unit_type = record { vm = app_vm; service = app };
  status = status;
  placement = managed (vm_service machine) (agent_service machine);
  watch = true;
}

-- An active unit is registered under the name in its status, and else nothing is registered.
abbrev pub Registers : VmName → UnitStatus → Text → World → World → Type 0
Registers machine status registry_id w v =
    ((is_active status ≡ true)
      × (by_name registry_id v.service.registry ≡ ok (managed_entry machine status))
      × (v.service.registry ≡ register (managed_entry machine status) w.service.registry))
    ⊎ ((is_active status ≡ false) × (v ≡ w))

register_as-Registers :
    (env : Env) (req : ApplicationRequest) (status : UnitStatus) (registry_id : Text) (w v : World)
    → register_as env req status w ≡ (ok registry_id, v)
    → (registry_id ≡ status.name) × Registers (app_vm_name req) status status.name w v
register_as-Registers env req status registry_id w v e =
    let entry = app_entry (app_vm_name req) status in
    let (_, y, done, e1) =
      >>=-ends (register_active env (app_vm_name req) status) (λ _. pure status.name) w e in
    let at_v : y ≡ v = ap (λ r. r.1) e1 in
    (
      cc (ap (λ r. r.0) e1),
      elim (if-ends (is_active status) (change (λ reg. ok (register entry reg))) (pure tt) done) [
        | inl (t, put) ↦
            let put_v : with_registry (register entry w.service.registry) w ≡ v =
              ap (λ r. r.1) put ∙ at_v in
            inl (
              t,
              ap (λ z. by_name status.name z.service.registry) (sym put_v)
                  ∙ (register-by_name entry w.service.registry status.name
                      ∙ ap (λ b. if b then ok entry else by_name status.name w.service.registry)
                          (eq_refl status.name)),
              ap (λ z. z.service.registry) (sym put_v),
            )
        | inr (f, kept) ↦ inr (f, sym (ap (λ r. r.1) kept ∙ at_v))
      ],
    )

-- What a start of an application that succeeds has done.
pub record AppStarted (env : Env) (req : ApplicationRequest) (w v : World) (registry_id : Text)
    : Type 0 where
  pub connected : World
  pub agent_there : HasAgent env (app_vm_name req) w connected
  pub agent : EndpointConfig
  pub agent_is : agent_endpoint (agent_service (app_vm_name req)) connected.service ≡ ok agent
  pub unit : Text
  pub unit_unique : create_unique_entry_name req.app_name connected.service.registry ≡ some unit
  pub status : UnitStatus
  pub answered :
      answer env connected.calls agent (start_application_call agent unit req.args) ≡ ok status
  pub named : registry_id ≡ status.name
  pub registered :
      Registers
        (app_vm_name req)
        status
        status.name
        (after_unit_call env agent (start_application_call agent unit req.args) connected)
        v

abbrev StartedOn : Env → ApplicationRequest → EndpointConfig → World → World → Text → Type 0
StartedOn env req ec w v registry_id =
    (unit : Text) × (create_unique_entry_name req.app_name w.service.registry ≡ some unit)
    × (status : UnitStatus) × (answer env w.calls ec (start_application_call ec unit req.args)
        ≡ ok status)
    × (registry_id ≡ status.name)
    × Registers (app_vm_name req) status status.name
        (after_unit_call env ec (start_application_call ec unit req.args) w) v

start_on-StartedOn :
    (env : Env) (req : ApplicationRequest) (ec : EndpointConfig) (w v : World) (registry_id : Text)
    → start_on env req ec w ≡ (ok registry_id, v)
    → StartedOn env req ec w v registry_id
unfolding start_application
start_on-StartedOn env req ec w v registry_id e =
    let (unit, u, unique, e1) =
      >>=-ends (gets (λ s. unique_name req.app_name s.registry)) (start_unit_as env req ec) w e in
    let same_u : w ≡ u = ap (λ r. r.1) unique in
    let call = start_application_call ec unit req.args in
    let (status, x, started, e2) =
      >>=-ends (start_application env ec unit req.args) (register_as env req) u e1 in
    let (answered, same_x) = unit_call-ends env ec call started in
    let (named, registered) = register_as-Registers env req status registry_id x v e2 in
    (
      unit,
      unique_name-eq-ok req.app_name w.service.registry (ap (λ r. r.0) unique),
      status,
      ap (λ z. answer env z.calls ec call) same_u ∙ answered,
      named,
      subst (λ z. Registers (app_vm_name req) status status.name z v)
          (same_x ∙ ap (after_unit_call env ec call) (sym same_u)) registered,
    )

-- A start of an application that succeeds found the agent of its machine registered, or started the
-- machine and found it registered then; it had that agent start a unit whose name no entry of the
-- registry had; and it returns the name in the agent's answer, under which the application is
-- registered as managed by this agent if the unit is active, while nothing is registered if not.
pub start_app_sound :
    (env : Env) (req : ApplicationRequest) (w v : World) (registry_id : Text)
    → start_app env req w ≡ (ok registry_id, v)
    → AppStarted env req w v registry_id
unfolding start_app
start_app_sound env req w v registry_id e =
    let machine = app_vm_name req in
    let (_, u, ready, e1) =
      >>=-ends (ensure_agent env machine)
        (λ _. gets (agent_endpoint (agent_service machine)) >>= start_on env req) w e in
    let (ec, x, agent_is, e2) =
      >>=-ends (gets (agent_endpoint (agent_service machine))) (start_on env req) u e1 in
    let (unit, unique, status, answered, named, registered) =
      subst (λ z. StartedOn env req ec z v registry_id) (sym (ap (λ r. r.1) agent_is))
        (start_on-StartedOn env req ec x v registry_id e2) in
    record {
      connected = u;
      agent_there = ensure_agent-HasAgent env machine w u ready;
      agent = ec;
      agent_is = ap (λ r. r.0) agent_is;
      unit = unit;
      unit_unique = unique;
      status = status;
      answered = answered;
      named = named;
      registered = registered;
    }
