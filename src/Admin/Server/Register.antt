-- ===== src/Admin/Server/Register.antt =====
-- crates/admin/src/admin/server.rs: what a registration does.
use ghaf_givc.Prelude.{
  ◌≡◌, refl, ap, ◌∙◌, inl, inr, List, [], ◌∷◌, ◌++◌, if◌then◌else◌, Bool-cases, ◌==◌, eq_refl,
  list_eq, option_eq, nat_eq, Result, ok, err, panic,
}
use mathlib.Core.List.{append_assoc, append-nil}
use ghaf_givc.Text.{Text}
use ghaf_givc.Admin.Types.{EndpointEntry, is_valid}
use ghaf_givc.Admin.Entry.{RegistryEntry, RegistryRequest, endpoint_of, entry_from, is_mgr}
use ghaf_givc.Admin.Entry.Requests.{IsOf, entry_from_sound}
use ghaf_givc.Admin.Registry.{register, by_name}
use ghaf_givc.Admin.Registry.Effects.{register-by_name}
use ghaf_givc.Admin.Server.World.{
  Env, World, Service, continue, with_registry, Spawned, monitor_entry, greet,
}
use ghaf_givc.Admin.Server.Endpoints.{agent_endpoint, endpoint, transport_of, endpoint_config}
use ghaf_givc.Admin.Server.Handlers.{
  register_service, register_entry, spawn_monitor, spawn_greeting,
}

-- The task for an entry whose status is not valid, which is asked for again.
abbrev pub probes : RegistryEntry → List Spawned
probes e = if is_valid e.status then [] else monitor_entry e ∷ []

-- The task for a new agent, which is reached at the endpoint of its own request.
abbrev pub greetings : Service → RegistryEntry → EndpointEntry → List Spawned
greetings s e transport =
    if is_mgr e.unit_type.service
    then greet (endpoint_config s.tls_config transport) s.locale_assigns s.timezone ∷ []
    else []

abbrev registered : RegistryEntry → EndpointEntry → World → World
registered e transport w = record w {
  service = record w.service { registry = register e w.service.registry };
  spawned = w.spawned ++ (probes e ++ greetings w.service e transport);
}

spawn_monitor_lem :
    (env : Env) (e : RegistryEntry) (w : World)
    → spawn_monitor env e w ≡ (ok tt, record w { spawned = w.spawned ++ probes e })
spawn_monitor_lem env e w = elim (Bool-cases (is_valid e.status)) [
  | inl t ↦ rw (t, append-nil) refl
  | inr f ↦ rw f refl
]

agent_endpoint-registered :
    (e : RegistryEntry) (transport : EndpointEntry) (vm_name : Text) (s : Service)
    → e.placement ≡ endpoint_of transport vm_name
    → by_name e.name s.registry ≡ ok e
    → agent_endpoint e.name s ≡ ok (endpoint_config s.tls_config transport)
unfolding agent_endpoint endpoint transport_of
agent_endpoint-registered e transport vm_name s placed h = rw (h, placed) refl

spawn_greeting_lem :
    (env : Env) (e : RegistryEntry) (transport : EndpointEntry) (vm_name : Text) (w : World)
    → e.placement ≡ endpoint_of transport vm_name
    → by_name e.name w.service.registry ≡ ok e
    → spawn_greeting env e w
      ≡ (ok tt, record w { spawned = w.spawned ++ greetings w.service e transport })
spawn_greeting_lem env e transport vm_name w placed h =
    elim (Bool-cases (is_mgr e.unit_type.service)) [
      | inl t ↦ rw (t, agent_endpoint-registered e transport vm_name w.service placed h) refl
      | inr f ↦ rw (f, append-nil) refl
    ]

-- What a registration leaves. A request that is accepted: its entry under its name, and the tasks
-- for it. A request that is refused: nothing.
abbrev pub RegisterDoes :
    RegistryRequest → World → Result RegistryEntry → Result (Unit {0}) × World → Type 0
RegisterDoes req w (ok e) r =
    (is_of : IsOf req e) × (r ≡ (ok tt, registered e is_of.endpoint w))
    × (by_name req.name r.1.service.registry ≡ ok e)
RegisterDoes req w (err why) r = r ≡ (err why, w)
RegisterDoes req w panic r = r ≡ (panic, w)

register_entry_lem :
    (env : Env) (e : RegistryEntry) (transport : EndpointEntry) (vm_name : Text) (w : World)
    → e.placement ≡ endpoint_of transport vm_name
    → register_entry env e w ≡ (ok tt, registered e transport w)
register_entry_lem env e transport vm_name w placed =
    let w1 : World = with_registry (register e w.service.registry) w in
    let w2 : World = record w1 { spawned = w1.spawned ++ probes e } in
    let found : by_name e.name (register e w.service.registry) ≡ ok e =
      register-by_name e w.service.registry e.name
      ∙ ap (λ b. if b then ok e else by_name e.name w.service.registry) (eq_refl e.name) in
    ap (continue (λ _. spawn_greeting env e)) (spawn_monitor_lem env e w1)
    ∙ (spawn_greeting_lem env e transport vm_name w2 placed found
        ∙ ap (λ l. (ok tt, record w1 { spawned = l }))
            (append_assoc w.spawned (probes e) (greetings w.service e transport)))

-- A request to register that is refused changes nothing. One that is accepted puts its entry under
-- its name, and starts a task that asks for its status if that is not a valid one, and, exactly if
-- the unit is the manager of its machine, a task that tells the agent, at the endpoint of the
-- request itself, the locale and the timezone of the server.
pub register_service_sound :
    (env : Env) (req : RegistryRequest) (w : World)
    → RegisterDoes req w (entry_from req) (register_service env req w)
unfolding register_service
register_service_sound env req w = split (entry_from req) refl
  where
    split :
        (r : Result RegistryEntry)
        → entry_from req ≡ r
        → RegisterDoes req w r (continue (register_entry env) (r, w))
    split (ok e) h =
        let is_of = entry_from_sound req e h in
        let done = register_entry_lem env e is_of.endpoint _ w is_of.placed in
        (
          is_of,
          done,
          ap (λ r. by_name req.name r.1.service.registry) done
              ∙ (register-by_name e w.service.registry req.name
                  ∙ ap (λ b. if b then ok e else by_name req.name w.service.registry)
                      (ap (λ n. n == req.name) is_of.same_name ∙ eq_refl req.name)),
        )
    split (err why) h = refl
    split panic h = refl
