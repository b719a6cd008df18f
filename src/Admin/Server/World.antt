-- ===== src/Admin/Server/World.antt =====
-- crates/admin/src/admin/server.rs and crates/client/src/endpoint.rs: the state of the admin server,
-- the calls that it makes, and actions on both. While a call waits for its answer, other tasks of
-- the server may change the registry.
use ghaf_givc.Prelude.{
  ℕ, Option, List, [], ◌∷◌, ◌++◌, list_eq, option_eq, nat_eq, Error, Result, ok, err, panic,
}
use ghaf_givc.Text.{Text, codes}
use ghaf_givc.Admin.Types.{EndpointEntry, UnitStatusMessage}
use ghaf_givc.Admin.Entry.{RegistryEntry}
use ghaf_givc.Admin.Registry.{Registry}
use ghaf_givc.Policy.{PolicyManager}

pub record TlsConfig : Type 0 where
  pub ca_cert_file_path : Text
  pub cert_file_path : Text
  pub key_file_path : Text
  pub tls_name : Option Text

pub record EndpointConfig : Type 0 where
  pub transport : EndpointEntry
  pub tls : Option TlsConfig

-- `LocaleAssignment` of the protocol, with the number of its key.
pub record LocaleAssignment : Type 0 where
  pub key : ℕ
  pub value : Text

pub data State : Type 0 where
  init init_complete host_registered vms_registered : State

-- What the server asks of the agents, and its pauses in seconds.
pub data Call : Type 0 where
  connect : EndpointConfig → Call
  get_unit_status start_unit stop_unit kill_unit freeze_unit unfreeze_unit :
      EndpointConfig → Text → Call
  start_application : EndpointConfig → Text → List Text → Call
  locale_set : EndpointConfig → List LocaleAssignment → Call
  timezone_set : EndpointConfig → Text → Call
  -- a method whose request and response the server only passes on
  relay : EndpointConfig → (method message : Text) → Call
  write_file : (path content : Text) → Call
  sleep : ℕ → Call

-- Tasks that the server starts and does not wait for.
pub data Spawned : Type 0 where
  monitor_entry : RegistryEntry → Spawned
  greet : EndpointConfig → List LocaleAssignment → (timezone : Text) → Spawned
  send_locale : List EndpointConfig → List LocaleAssignment → Spawned
  send_timezone : List EndpointConfig → Text → Spawned

pub record UnitResponse : Type 0 where
  pub unit_status : Option UnitStatusMessage

-- The agents and the other tasks: what they answer and do after the calls so far.
pub record Env : Type 0 where
  pub connects : List Call → EndpointConfig → Result (Unit {0})
  pub units : List Call → Call → Result UnitResponse
  pub replies : List Call → Call → Result Text
  -- what a file holds after a write that may fail, by what it held
  pub stored : List Call → Option Text → Text → Option Text
  pub meanwhile : List Call → Registry → Registry

-- `AdminServiceImpl`
pub record Service : Type 0 where
  pub registry : Registry
  pub state : State
  pub tls_config : Option TlsConfig
  pub locale_assigns : List LocaleAssignment
  pub timezone : Text
  pub policy_manager : Option PolicyManager

-- The server, its calls, the last one at the end, its two files, and the tasks it started.
pub record World : Type 0 where
  pub service : Service
  pub calls : List Call
  pub locale_conf : Option Text
  pub timezone_conf : Option Text
  pub spawned : List Spawned

abbrev pub Action : Type 0 → Type 0
Action A = World → Result A × World

abbrev pub pure : {A : Type 0} → A → Action A
pure a w = (ok a, w)

abbrev pub lift : {A : Type 0} → Result A → Action A
lift r w = (r, w)

abbrev pub raise : {A : Type 0} → Error → Action A
raise e w = (err e, w)

-- A computation on the present state.
abbrev pub gets : {A : Type 0} → (Service → Result A) → Action A
gets f w = (f w.service, w)

infixl 5 ◌>>=◌ ◌>>◌
abbrev pub continue : {A B : Type 0} → (A → Action B) → Result A × World → Result B × World
continue k (ok a, w) = k a w
continue k (err e, w) = (err e, w)
continue k (panic, w) = (panic, w)

abbrev pub ◌>>=◌ : {A B : Type 0} → Action A → (A → Action B) → Action B
◌>>=◌ m k w = continue k (m w)

abbrev pub ◌>>◌ : {A B : Type 0} → Action A → Action B → Action B
m >> k = m >>= λ _. k

-- What follows an error, instead of the `?`.
abbrev pub on_error :
    {A B : Type 0} → Action B → (A → Action B) → Result A × World → Result B × World
on_error h k (ok a, w) = k a w
on_error h k (err e, w) = h w
on_error h k (panic, w) = (panic, w)

abbrev pub match_result : {A B : Type 0} → Action A → Action B → (A → Action B) → Action B
match_result m h k w = on_error h k (m w)

abbrev pub with_registry : Registry → World → World
with_registry reg w = record w { service = record w.service { registry = reg } }

-- A call that changes the registry.
abbrev pub change_to : Result Registry → World → Result (Unit {0}) × World
change_to (ok reg) w = (ok tt, with_registry reg w)
change_to (err e) w = (err e, w)
change_to panic w = (panic, w)

abbrev pub change : (Registry → Result Registry) → Action (Unit {0})
change f w = change_to (f w.service.registry) w

abbrev pub spawn : Spawned → Action (Unit {0})
spawn task w = (ok tt, record w { spawned = w.spawned ++ (task ∷ []) })

-- The state when a call has its answer.
abbrev pub after_call : Env → Call → World → World
after_call env call w = record w {
  service = record w.service { registry = env.meanwhile w.calls w.service.registry };
  calls = w.calls ++ (call ∷ []);
}

unfoldable pub open_channel : Env → EndpointConfig → Action (Unit {0})
open_channel env ec w = (env.connects w.calls ec, after_call env (connect ec) w)

unfoldable pub ask_unit : Env → Call → Action UnitResponse
ask_unit env call w = (env.units w.calls call, after_call env call w)

unfoldable pub ask : Env → Call → Action Text
ask env call w = (env.replies w.calls call, after_call env call w)

unfoldable pub pause_for : Env → ℕ → Action (Unit {0})
pause_for env seconds w = (ok tt, after_call env (sleep seconds) w)

abbrev pub locale_path : Text
locale_path = codes "/etc/locale-givc.conf"

abbrev pub timezone_path : Text
timezone_path = codes "/etc/timezone.conf"

-- The result of a write is ignored.
unfoldable pub write_locale_conf : Env → Text → Action (Unit {0})
write_locale_conf env content w = (
  ok tt,
  record (after_call env (write_file locale_path content) w) {
    locale_conf = env.stored w.calls w.locale_conf content;
  },
)

unfoldable pub write_timezone_conf : Env → Text → Action (Unit {0})
write_timezone_conf env content w = (
  ok tt,
  record (after_call env (write_file timezone_path content) w) {
    timezone_conf = env.stored w.calls w.timezone_conf content;
  },
)
