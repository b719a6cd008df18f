-- ===== src/Admin/Server/Requests.antt =====
-- crates/admin/src/admin/server.rs: registrations, the locale and the tasks keep the registry and
-- the tasks as they should be.
use ghaf_givc.Prelude.{
  ◌≡◌, refl, Bool, not, List, [], ◌∷◌, leb, ◌==◌, list_eq, option_eq, nat_eq, length, Result, ok,
  err, panic, ensure, map_result, no_assignments, invalid_timezone,
}
use ghaf_givc.Text.{Text, Pattern, join_with}
use ghaf_givc.Admin.Types.{is_valid}
use ghaf_givc.Admin.Entry.{RegistryEntry, RegistryRequest, entry_from, is_mgr}
use ghaf_givc.Admin.Registry.{register}
use ghaf_givc.Policy.Refresh.{Store}
use ghaf_givc.Admin.Server.World.{
  Env, Action, ◌>>◌, continue, pure, lift, gets, change, spawn, Spawned, monitor_entry, greet,
  send_locale, send_timezone, EndpointConfig, Call, locale_set, timezone_set, open_channel, ask,
  LocaleAssignment, write_locale_conf, write_timezone_conf, write_file, locale_path, timezone_path,
}
use ghaf_givc.Admin.Server.Endpoints.{agent_endpoint}
use ghaf_givc.Admin.Server.Locale.{
  set_locale, set_timezone, managers, locale_line, check_values, validate_timezone, publish_locale,
  publish_timezone,
}
use ghaf_givc.Admin.Server.Handlers.{
  register_service, register_entry, spawn_monitor, spawn_greeting, run_spawned, run_greeting,
  tell_each, try_call, assigns_empty, tell_one, tell_locale, tell_timezone, greet_connected,
}
use ghaf_givc.Admin.Server.Runs.{Keeps, match_result-Keeps, if-Keeps}
use ghaf_givc.Admin.Server.Placed.{IsPlaced, entry_from-IsPlaced}
use ghaf_givc.Admin.Server.Frame.{
  IsOrderly, IsFair, IsPlacedTask, after_call-IsOrderly, open_channel-Orderly, ask-Orderly,
  spawn-Orderly, monitor_routine-Orderly,
}
use ghaf_givc.Admin.Server.Orderly.{AnyCall, then_Orderly, registering-Orderly}

module _ (env : Env) (fair : IsFair env) (base : List Call) where
  abbrev Tidy : {A : Type 0} → Action A → Type 0
  Tidy m = Keeps (IsOrderly AnyCall base) m

  spawn-Tidy : (task : Spawned) → IsPlacedTask task → Tidy (spawn task)
  spawn-Tidy task h = spawn-Orderly env fair AnyCall base task h

  spawn_monitor-Tidy : (e : RegistryEntry) → IsPlaced e → Tidy (spawn_monitor env e)
  spawn_monitor-Tidy e h =
      if-Keeps (IsOrderly AnyCall base) (is_valid e.status) (pure tt) (spawn (monitor_entry e))
        (λ w s. s) (spawn-Tidy (monitor_entry e) h)

  spawn_greeting-Tidy : (e : RegistryEntry) → Tidy (spawn_greeting env e)
  spawn_greeting-Tidy e =
      if-Keeps (IsOrderly AnyCall base) (is_mgr e.unit_type.service) _ (pure tt)
        (match_result-Keeps (IsOrderly AnyCall base) (gets (agent_endpoint e.name)) (pure tt) _
          (λ w s. s) (λ w s. s)
          (λ ec w s. spawn-Tidy (greet ec w.service.locale_assigns w.service.timezone) tt w s))
        (λ w s. s)

  register_entry-Tidy : (e : RegistryEntry) → IsPlaced e → Tidy (register_entry env e)
  register_entry-Tidy e h =
      then_Orderly env fair base (change (λ reg. ok (register e reg)))
        (λ _. spawn_monitor env e >> spawn_greeting env e) (registering-Orderly env fair base e h)
        (λ _.
          then_Orderly env fair base (spawn_monitor env e) (λ _. spawn_greeting env e)
            (spawn_monitor-Tidy e h) (λ _. spawn_greeting-Tidy e))

  pub register_service-Tidy : (req : RegistryRequest) → Tidy (register_service env req)
  unfolding register_service
  register_service-Tidy req w s = split (entry_from req) refl
    where
      split :
          (r : Result RegistryEntry)
          → entry_from req ≡ r
          → IsOrderly AnyCall base (continue (register_entry env) (r, w)).1
      split (ok e) h = register_entry-Tidy e (entry_from-IsPlaced req h) w s
      split (err why) h = s
      split panic h = s

  try_call-Tidy : (call : Call) → Tidy (try_call env call)
  try_call-Tidy call =
      match_result-Keeps (IsOrderly AnyCall base) (ask env call) (pure tt) _
        (ask-Orderly env fair AnyCall base call tt) (λ w s. s) (λ _ w s. s)

  tell_locale-Tidy :
      (ec : EndpointConfig) (assigns : List LocaleAssignment) → Tidy (tell_locale env ec assigns)
  tell_locale-Tidy ec assigns =
      if-Keeps (IsOrderly AnyCall base) (assigns_empty assigns) (pure tt)
        (try_call env (locale_set ec assigns)) (λ w s. s) (try_call-Tidy (locale_set ec assigns))

  tell_timezone-Tidy :
      (ec : EndpointConfig) (timezone : Text) → Tidy (tell_timezone env ec timezone)
  tell_timezone-Tidy ec timezone =
      if-Keeps (IsOrderly AnyCall base) (timezone == []) (pure tt)
        (try_call env (timezone_set ec timezone)) (λ w s. s)
        (try_call-Tidy (timezone_set ec timezone))

  greet_connected-Tidy :
      (store : Store) (ec : EndpointConfig) (assigns : List LocaleAssignment) (timezone : Text)
      → Tidy (greet_connected env store ec assigns timezone)
  greet_connected-Tidy store ec assigns timezone w s =
      then_Orderly env fair base (tell_locale env ec assigns) (λ _. tell_timezone env ec timezone)
        (tell_locale-Tidy ec assigns) (λ _. tell_timezone-Tidy ec timezone) _
        (record { served = s.served; tasks = s.tasks; since = s.since })

  run_greeting-Tidy :
      (store : Store) (ec : EndpointConfig) (assigns : List LocaleAssignment) (timezone : Text)
      → Tidy (run_greeting env store ec assigns timezone)
  unfolding run_greeting
  run_greeting-Tidy store ec assigns timezone =
      match_result-Keeps (IsOrderly AnyCall base) (open_channel env ec) (pure tt) _
        (open_channel-Orderly env fair AnyCall base ec tt) (λ w s. s)
        (λ _. greet_connected-Tidy store ec assigns timezone)

  tell_each-Tidy :
      (call : EndpointConfig → Call) (agents : List EndpointConfig)
      → Tidy (tell_each env call agents)
  unfolding tell_each
  tell_each-Tidy call [] = λ w s. s
  tell_each-Tidy call (ec ∷ rest) =
      then_Orderly env fair base (tell_one env call ec) (λ _. tell_each env call rest)
        (match_result-Keeps (IsOrderly AnyCall base) (open_channel env ec) (pure tt) _
          (open_channel-Orderly env fair AnyCall base ec tt) (λ w s. s)
          (λ _. try_call-Tidy (call ec)))
        (λ _. tell_each-Tidy call rest)

  pub run_spawned-Tidy :
      (store : Store) (task : Spawned) → IsPlacedTask task → Tidy (run_spawned env store task)
  unfolding run_spawned
  run_spawned-Tidy store (monitor_entry entry) h =
      monitor_routine-Orderly env fair AnyCall base (λ ec. tt) (λ ec unit. tt) entry h
  run_spawned-Tidy store (greet ec assigns timezone) h = run_greeting-Tidy store ec assigns timezone
  run_spawned-Tidy store (send_locale agents assigns) h =
      tell_each-Tidy (λ ec. locale_set ec assigns) agents
  run_spawned-Tidy store (send_timezone agents timezone) h =
      tell_each-Tidy (λ ec. timezone_set ec timezone) agents

  write_locale_conf-Tidy : (content : Text) → Tidy (write_locale_conf env content)
  unfolding write_locale_conf
  write_locale_conf-Tidy content w s =
      let t = after_call-IsOrderly env fair AnyCall base (write_file locale_path content) tt w s in
      record { served = t.served; tasks = t.tasks; since = t.since }

  write_timezone_conf-Tidy : (content : Text) → Tidy (write_timezone_conf env content)
  unfolding write_timezone_conf
  write_timezone_conf-Tidy content w s =
      let t =
        after_call-IsOrderly env fair AnyCall base (write_file timezone_path content) tt w s in
      record { served = t.served; tasks = t.tasks; since = t.since }

  publish_locale-Tidy : (assigns : List LocaleAssignment) → Tidy (publish_locale assigns)
  publish_locale-Tidy assigns w s =
      let t = spawn-Tidy (send_locale (managers w.service) assigns) tt w s in
      record { served = t.served; tasks = t.tasks; since = t.since }

  publish_timezone-Tidy : (timezone : Text) → Tidy (publish_timezone timezone)
  publish_timezone-Tidy timezone w s =
      let t = spawn-Tidy (send_timezone (managers w.service) timezone) tt w s in
      record { served = t.served; tasks = t.tasks; since = t.since }

  module _ (is_match : Pattern → Text → Bool) where
    pub set_locale-Tidy : (assigns : List LocaleAssignment) → Tidy (set_locale is_match env assigns)
    unfolding set_locale
    set_locale-Tidy assigns =
        then_Orderly env fair base (lift (ensure (not (leb (length assigns) 0)) no_assignments)) _
          (λ w s. s)
          (λ _.
            then_Orderly env fair base (lift (check_values is_match assigns)) _ (λ w s. s)
              (λ _.
                then_Orderly env fair base (lift (map_result locale_line assigns)) _ (λ w s. s)
                  (λ ls.
                    then_Orderly env fair base (write_locale_conf env (join_with 0xa ls))
                      (λ _. publish_locale assigns) (write_locale_conf-Tidy (join_with 0xa ls))
                      (λ _. publish_locale-Tidy assigns))))

    pub set_timezone-Tidy : (timezone : Text) → Tidy (set_timezone is_match env timezone)
    unfolding set_timezone
    set_timezone-Tidy timezone =
        then_Orderly env fair base
          (lift (ensure (validate_timezone is_match timezone) invalid_timezone)) _ (λ w s. s)
          (λ _.
            then_Orderly env fair base (write_timezone_conf env timezone)
              (λ _. publish_timezone timezone) (write_timezone_conf-Tidy timezone)
              (λ _. publish_timezone-Tidy timezone))
