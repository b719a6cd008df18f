-- ===== src/Admin/Server/Locale.antt =====
-- crates/admin/src/admin/server.rs and api/locale/locale.proto: the locale and the timezone, which
-- the server checks, keeps in two files, and sends to the agents.
use ghaf_givc.Prelude.{
  ℕ, Bool, not, Option, none, some, List, [], ◌∷◌, ◌++◌, map, leb, if◌then◌else◌, ◌==◌, list_eq,
  option_eq, nat_eq, length, find, Result, ok, err, panic, ensure, map_result, no_assignments,
  empty_locale, invalid_locale, invalid_locale_key, invalid_timezone,
}
use ghaf_givc.Text.{
  Text, codes, split_once, lines, join_with, Pattern, one_in, then_, or_, many, at_least_one, maybe,
  char, literal,
}
use ghaf_givc.Admin.Entry.{RegistryEntry, is_mgr}
use ghaf_givc.Admin.Registry.{values, new as new_registry}
use ghaf_givc.Policy.{PolicyManager}
use ghaf_givc.Admin.Server.World.{
  Env, Service, Action, ◌>>=◌, ◌>>◌, lift, gets, LocaleAssignment, init, TlsConfig, EndpointConfig,
  spawn, send_locale, send_timezone, write_locale_conf, write_timezone_conf,
}
use ghaf_givc.Admin.Server.Endpoints.{endpoint}

pub data LocaleMacroKey : Type 0 where
  lang lc_address lc_collate lc_ctype lc_identification lc_monetary lc_messages : LocaleMacroKey
  lc_measurement lc_name lc_numeric lc_paper lc_telephone lc_time lc_all : LocaleMacroKey

-- The name in the protocol.
abbrev pub as_str_name : LocaleMacroKey → Text
as_str_name lang = codes "LANG"
as_str_name lc_address = codes "LC_ADDRESS"
as_str_name lc_collate = codes "LC_COLLATE"
as_str_name lc_ctype = codes "LC_CTYPE"
as_str_name lc_identification = codes "LC_IDENTIFICATION"
as_str_name lc_monetary = codes "LC_MONETARY"
as_str_name lc_messages = codes "LC_MESSAGES"
as_str_name lc_measurement = codes "LC_MEASUREMENT"
as_str_name lc_name = codes "LC_NAME"
as_str_name lc_numeric = codes "LC_NUMERIC"
as_str_name lc_paper = codes "LC_PAPER"
as_str_name lc_telephone = codes "LC_TELEPHONE"
as_str_name lc_time = codes "LC_TIME"
as_str_name lc_all = codes "LC_ALL"

abbrev pub number_of : LocaleMacroKey → ℕ
number_of lang = 0
number_of lc_address = 1
number_of lc_collate = 2
number_of lc_ctype = 3
number_of lc_identification = 4
number_of lc_monetary = 5
number_of lc_messages = 6
number_of lc_measurement = 7
number_of lc_name = 8
number_of lc_numeric = 9
number_of lc_paper = 10
number_of lc_telephone = 11
number_of lc_time = 12
number_of lc_all = 13

abbrev pub all_keys : List LocaleMacroKey
all_keys =
    lang ∷ lc_address ∷ lc_collate ∷ lc_ctype ∷ lc_identification ∷ lc_monetary ∷ lc_messages
    ∷ lc_measurement ∷ lc_name ∷ lc_numeric ∷ lc_paper ∷ lc_telephone ∷ lc_time ∷ lc_all ∷ []

unfoldable pub from_str_name : Text → Option LocaleMacroKey
from_str_name name = find (λ key. as_str_name key == name) all_keys

-- `try_from`
unfoldable pub key_from : ℕ → Option LocaleMacroKey
key_from number = find (λ key. number_of key == number) all_keys

abbrev letter_or_digit : List (ℕ × ℕ)
letter_or_digit = (b'a', b'z') ∷ (b'A', b'Z') ∷ (b'0', b'9') ∷ []

abbrev small : Pattern
small = one_in ((b'a', b'z') ∷ [])

abbrev capital : Pattern
capital = one_in ((b'A', b'Z') ∷ [])

-- `(?:C|POSIX|[a-z]{2}(?:_[A-Z]{2})?(?:@[a-zA-Z0-9]+)?)(?:\.[-a-zA-Z0-9]+)?`
abbrev pub locale_pattern : Pattern
locale_pattern =
    then_
      (or_ (literal (codes "C")) (
        or_ (literal (codes "POSIX")) (
          then_ (then_ small small) (
            then_ (maybe (then_ (char b'_') (then_ capital capital)))
              (maybe (then_ (char b'@') (at_least_one (one_in letter_or_digit))))))))
      (maybe (then_ (char b'.') (at_least_one (one_in ((b'-', b'-') ∷ letter_or_digit)))))

-- `[A-Z][-+a-zA-Z0-9]*(?:/[A-Z][-+a-zA-Z0-9_]*)*`
abbrev pub timezone_pattern : Pattern
timezone_pattern = then_ capital (
    then_ (many (one_in ((b'-', b'-') ∷ (b'+', b'+') ∷ letter_or_digit))) (
      many (
        then_ (char b'/') (
          then_ capital
            (many (one_in ((b'-', b'-') ∷ (b'+', b'+') ∷ (b'_', b'_') ∷ letter_or_digit)))))))

abbrev pub assignment : Text → Option LocaleMacroKey → Option LocaleAssignment
assignment value none = none
assignment value (some key) = some (record { key = number_of key; value = value })

abbrev pub assignment_parts : Option (Text × Text) → Option LocaleAssignment
assignment_parts none = none
assignment_parts (some (key, value)) = assignment value (from_str_name key)

-- `filter_map`
abbrev pub some_of : {A : Type 0} → List (Option A) → List A
some_of [] = []
some_of (none ∷ os) = some_of os
some_of (some a ∷ os) = a ∷ some_of os

unfoldable pub parse_assignments : Text → List LocaleAssignment
parse_assignments content =
    some_of (map (λ line. assignment_parts (split_once b'=' line)) (lines content))

abbrev pub or_none : {A : Type 0} → (Text → List A) → Option Text → List A
or_none f none = []
or_none f (some content) = f content

abbrev pub first_or_empty : List Text → Text
first_or_empty [] = []
first_or_empty (line ∷ rest) = line

-- `AdminServiceImpl::new`, on what the two files hold.
unfoldable pub new : Option TlsConfig → Option PolicyManager → Option Text → Option Text → Service
new use_tls policy_manager locale_conf timezone_conf = record {
  registry = new_registry;
  state = init;
  tls_config = use_tls;
  timezone = first_or_empty (or_none lines timezone_conf);
  locale_assigns = or_none parse_assignments locale_conf;
  policy_manager = policy_manager;
}

abbrev pub named_line : Text → Option LocaleMacroKey → Result Text
named_line value none = err invalid_locale_key
named_line value (some key) = ok (as_str_name key ++ (b'=' ∷ value))

-- The line of the file for an assignment.
unfoldable pub locale_line : LocaleAssignment → Result Text
locale_line a = named_line a.value (key_from a.key)

abbrev manager_endpoint : Service → RegistryEntry → List EndpointConfig
manager_endpoint s re = if is_mgr re.unit_type.service then found (endpoint re s) else []
  where
    found : Result EndpointConfig → List EndpointConfig
    found (ok ec) = ec ∷ []
    found (err e) = []
    found panic = []

abbrev concat_map : {A B : Type 0} → (A → List B) → List A → List B
concat_map f [] = []
concat_map f (a ∷ rest) = f a ++ concat_map f rest

-- The agents of all machines, as far as they can be resolved.
unfoldable pub managers : Service → List EndpointConfig
managers s = concat_map (manager_endpoint s) (values s.registry.table)

abbrev pub set_assigns : List LocaleAssignment → Action (Unit {0})
set_assigns assignments w =
    (ok tt, record w { service = record w.service { locale_assigns = assignments } })

abbrev pub keep_timezone : Text → Action (Unit {0})
keep_timezone timezone w = (ok tt, record w { service = record w.service { timezone = timezone } })

-- The agents are told by a task of their own, and the state is changed at once.
abbrev pub publish_locale : List LocaleAssignment → Action (Unit {0})
publish_locale assignments = do
  agents ← gets (λ s. ok (managers s))
  spawn (send_locale agents assignments)
  set_assigns assignments

abbrev pub publish_timezone : Text → Action (Unit {0})
publish_timezone timezone = do
  agents ← gets (λ s. ok (managers s))
  spawn (send_timezone agents timezone)
  keep_timezone timezone

abbrev pub then_check : Result (Unit {0}) → Result (Unit {0}) → Result (Unit {0})
then_check (ok _) rest = rest
then_check (err e) rest = err e
then_check panic rest = panic

module _ (is_match : Pattern → Text → Bool) where
  unfoldable pub validate_locale : Text → Bool
  validate_locale locale = is_match locale_pattern locale

  unfoldable pub validate_timezone : Text → Bool
  validate_timezone timezone = is_match timezone_pattern timezone

  unfoldable pub check_value : Text → Result (Unit {0})
  check_value value =
      if value == [] then err empty_locale else ensure (validate_locale value) invalid_locale

  unfoldable pub check_values : List LocaleAssignment → Result (Unit {0})
  check_values [] = ok tt
  check_values (a ∷ more_values) = then_check (check_value a.value) (check_values more_values)

  module _ (env : Env) where
    unfoldable pub set_locale : List LocaleAssignment → Action (Unit {0})
    set_locale assignments = do
      lift (ensure (not (leb (length assignments) 0)) no_assignments)
      lift (check_values assignments)
      ls ← lift (map_result locale_line assignments)
      write_locale_conf env (join_with 0xa ls)
      publish_locale assignments

    unfoldable pub set_timezone : Text → Action (Unit {0})
    set_timezone timezone = do
      lift (ensure (validate_timezone timezone) invalid_timezone)
      write_timezone_conf env timezone
      publish_timezone timezone
