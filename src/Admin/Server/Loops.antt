-- ===== src/Admin/Server/Loops.antt =====
-- crates/admin/src/admin/server.rs: pausing, resuming and stopping the units of an application.
use ghaf_givc.Prelude.{
  ◌≡◌, sym, ap, subst, ◌∙◌, ◌⊎◌, inl, inr, Bool, true, false, List, [], ◌∷◌, Bool-cases, ◌==◌,
  list_eq, option_eq, nat_eq, any, Error, ok, ensure, failed_to_stop, failed_to_pause,
  failed_to_resume,
}
use ghaf_givc.Text.{Text}
use ghaf_givc.Admin.Registry.{find_names}
use ghaf_givc.Admin.Types.{UnitStatus, is_exitted, is_paused, is_running}
use ghaf_givc.Admin.Server.World.{
  Service, Env, World, Action, ◌>>=◌, ◌>>◌, lift, gets, EndpointConfig, Call, stop_unit,
  freeze_unit, unfreeze_unit,
}
use ghaf_givc.Admin.Server.Client.{stop_remote, pause_remote, resume_remote, unit_call}
use ghaf_givc.Admin.Server.Endpoints.{agent_endpoint, app_entries}
use ghaf_givc.Admin.Server.Apps.{
  ApplicationRequest, for_entries, on_entries, pause_application, resume_application,
  stop_application,
}
use ghaf_givc.Admin.Server.Runs.{>>=-ends, ensure-ends, answer, after_unit_call, unit_call-ends}

-- Each unit was told in its turn, and its answer passes the test.
abbrev pub Told :
    Env → EndpointConfig → (Text → Call) → (UnitStatus → Bool) → List Text → World → World → Type 0
Told env ec call test [] w v = v ≡ w
Told env ec call test (each ∷ rest) w v =
    (status : UnitStatus) × (answer env w.calls ec (call each) ≡ ok status)
    × (test status ≡ true)
    × Told env ec call test rest (after_unit_call env ec (call each) w) v

-- The units of a name: of the name of an instance, or the beginning of one, the registered names that
-- it finds, and else the name itself.
abbrev pub IsUnits : Text → Service → List Text → Type 0
IsUnits name s names =
    ((any (λ c. c == b'@') name ≡ true) × (find_names name s.registry ≡ ok names))
    ⊎ ((any (λ c. c == b'@') name ≡ false) × (names ≡ name ∷ []))

app_entries-IsUnits :
    (name : Text) (s : Service) {names : List Text}
    → app_entries name s ≡ ok names
    → IsUnits name s names
unfolding app_entries
app_entries-IsUnits name s {names} e = elim (Bool-cases (any (λ c. c == b'@') name)) [
  | inl t ↦ let found : find_names name s.registry ≡ ok names = rw t at e in inl (t, found)
  | inr f ↦ let alone : ok (name ∷ []) ≡ ok names = rw f at e in inr (f, sym (cc alone))
]

-- The agent of the name told every unit of the application.
abbrev pub ToldAll :
    Env → (EndpointConfig → Text → Call) → (UnitStatus → Bool) → Text → World → World → Type 0
ToldAll env call test app_name w v =
    (ec : EndpointConfig) × (agent_endpoint app_name w.service ≡ ok ec)
    × (names : List Text) × IsUnits app_name w.service names
    × Told env ec (call ec) test names w v

module _ (env : Env) (call : EndpointConfig → Text → Call) (test : UnitStatus → Bool)
    (failed : Error) where
  abbrev told_remote : EndpointConfig → Text → Action UnitStatus
  told_remote ec unit = unit_call env ec (call ec unit)

  for_entries-Told :
      (ec : EndpointConfig) (names : List Text) (w v : World)
      → for_entries env told_remote test failed ec names w ≡ (ok tt, v)
      → Told env ec (call ec) test names w v
  unfolding for_entries
  for_entries-Told ec [] w v e = sym (ap (λ r. r.1) e)
  for_entries-Told ec (each ∷ rest) w v e =
      let (status, u, asked, e1) =
        >>=-ends (told_remote ec each)
          (λ status.
            lift (ensure (test status) failed) >> for_entries env told_remote test failed ec rest)
          w e in
      let (answered, same) = unit_call-ends env ec (call ec each) asked in
      let (_, x, checked, e2) =
        >>=-ends (lift (ensure (test status) failed))
          (λ _. for_entries env told_remote test failed ec rest) u e1 in
      let (passed, at_x) = ensure-ends (test status) failed checked in
      (
        status,
        answered,
        passed,
        subst (λ z. Told env ec (call ec) test rest z v) (sym at_x ∙ same)
            (for_entries-Told ec rest x v e2),
      )

  on_entries-ToldAll :
      (req : ApplicationRequest) (w v : World)
      → on_entries env told_remote test failed req w ≡ (ok tt, v)
      → ToldAll env call test req.app_name w v
  on_entries-ToldAll req w v e =
      let (ec, u, agent_is, e1) =
        >>=-ends (gets (agent_endpoint req.app_name))
          (λ ec. gets (app_entries req.app_name) >>= λ names.
            for_entries env told_remote test failed ec names)
          w e in
      let same_u : w ≡ u = ap (λ r. r.1) agent_is in
      let (names, x, names_are, e2) =
        >>=-ends (gets (app_entries req.app_name))
          (λ names. for_entries env told_remote test failed ec names) u e1 in
      let same_x : u ≡ x = ap (λ r. r.1) names_are in
      (
        ec,
        ap (λ r. r.0) agent_is,
        names,
        app_entries-IsUnits req.app_name w.service
            (ap (λ z. app_entries req.app_name z.service) same_u ∙ ap (λ r. r.0) names_are),
        subst (λ z. Told env ec (call ec) test names z v) (sym (same_u ∙ same_x))
            (for_entries-Told ec names x v e2),
      )

-- A request to stop an application that succeeds has told the agent of its name to stop each of its
-- units, in order, which are the registered names that the name of an instance finds, or the name, and each answered with a status that has exited; and so for a request to pause
-- it, with statuses that are paused, and to resume it, with statuses that are running.
pub on_application_sound :
    (env : Env) (req : ApplicationRequest) (w v : World)
    → (stop_application env req w ≡ (ok tt, v) → ToldAll env stop_unit is_exitted req.app_name w v)
      × (pause_application env req w ≡ (ok tt, v)
          → ToldAll env freeze_unit is_paused req.app_name w v)
      × (resume_application env req w ≡ (ok tt, v)
          → ToldAll env unfreeze_unit is_running req.app_name w v)
unfolding stop_application pause_application resume_application stop_remote pause_remote
    resume_remote
on_application_sound env req w v = (
  on_entries-ToldAll env stop_unit is_exitted failed_to_stop req w v,
  on_entries-ToldAll env freeze_unit is_paused failed_to_pause req w v,
  on_entries-ToldAll env unfreeze_unit is_running failed_to_resume req w v,
)
