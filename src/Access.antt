-- ===== src/Access.antt =====
-- crates/admin/src/utils/access_control.rs: the interceptor that authorizes requests. The policy
-- engine, the descriptors and JSON are the record `Policies`.
pub mod Sound
use ghaf_givc.Prelude.{
  ℕ, ◌+◌, ◌*◌, Bool, true, false, not, ◌&&◌, ◌||◌, Option, none, some, List, [], ◌∷◌, leb,
  if◌then◌else◌, ◌==◌, list_beq, list_eq, option_eq, nat_eq, length, take, Result, ok, err, ◌>>=◌,
  ◌>>◌, ensure, context, invalid_service_name, empty_tokens, permission_denied, missing_hostname,
  bad_request,
}
use ghaf_givc.Text.{Text, split_once, split_char, trim}

abbrev pub Bytes : Type 0
Bytes = List ℕ

-- What the interceptor asks of `cedar-policy`, `prost-reflect` and `serde_json`.
pub record Policies : Type 1 where
  pub Json : Type 0
  pub empty_object : Json
  pub insert_service : Text → Json → Json
  -- The engine's decision on principal, action, resource and context; an error if these make no
  -- request.
  pub is_authorized : Text → Text → Text → Json → Result Bool
  -- Whether the method of the service streams from the client, if the pool has it.
  pub is_client_streaming : Text → Text → Option Bool
  -- The payload of a message of the method, as JSON.
  pub decode : Text → Text → Bytes → Result Json

-- A request: the host name of its security information, its path, and what its body gives.
pub record HttpRequest : Type 0 where
  pub hostname : Option Text
  pub path : Text
  pub body : Result Bytes

abbrev is_blank : Text → Bool
is_blank s = trim s == []

abbrev pub decided : Bool → Result (Unit {0})
decided true = ok tt
decided false = err permission_denied

-- `trim_matches`, at a slash.
unfoldable pub trim_start_slashes : Text → Text
trim_start_slashes [] = []
trim_start_slashes (c ∷ s) = let rest = trim_start_slashes s in if c == b'/' then rest else c ∷ s

unfoldable pub trim_end_slashes : Text → Text
unfolding list_beq
trim_end_slashes [] = []
trim_end_slashes (c ∷ s) =
    let rest = trim_end_slashes s in if rest == [] && c == b'/' then [] else c ∷ rest

abbrev pub two_parts : List Text → Option (Text × Text)
two_parts [] = none
two_parts (x ∷ []) = none
two_parts (x ∷ y ∷ rest) = some (x, y)

unfoldable pub parse_grpc_path : Text → Option (Text × Text)
unfolding trim_start_slashes trim_end_slashes split_char
parse_grpc_path path = two_parts (split_char b'/' (trim_end_slashes (trim_start_slashes path)))

-- The message behind the flag and the length of its frame, if the body holds it whole.
unfoldable pub payload : Bytes → Option Bytes
payload (flag ∷ a ∷ b ∷ c ∷ d ∷ chunk) =
    let len = ((a * 256 + b) * 256 + c) * 256 + d in
    if leb len (length chunk) then some (take len chunk) else none
payload _ = none

module _ (p : Policies) where
  unfoldable pub authorize : Text → Text → Text → p.Json → Result (Unit {0})
  unfolding split_once trim
  authorize source full_service_name grpc_method_name context_json = do
    (module_name, service_name) ← context invalid_service_name (split_once b'.' full_service_name)
    ensure
        (not (
          is_blank module_name
          || (is_blank service_name || (is_blank grpc_method_name || is_blank source))))
        empty_tokens
    allowed ←
        p.is_authorized source grpc_method_name module_name
          (p.insert_service service_name context_json)
    decided allowed

  -- The context of a message that was received whole, else the empty one.
  abbrev pub message_context : Text → Text → Option Bytes → Result p.Json
  message_context service_name method_name none = ok p.empty_object
  message_context service_name method_name (some msg) = p.decode service_name method_name msg

  -- A method without a stream from the client: its body is collected, and put back.
  abbrev pub intercept_message : Text → Text → Text → HttpRequest → Result HttpRequest
  intercept_message source service_name method_name req = do
    bytes ← req.body
    context_json ← message_context service_name method_name (payload bytes)
    authorize source service_name method_name context_json
    ok (record req { body = ok bytes })

  abbrev pub intercept_stream : Text → Text → Text → HttpRequest → Result HttpRequest
  intercept_stream source service_name method_name req = do
    authorize source service_name method_name p.empty_object
    ok req

  abbrev pub intercept_method : Option Bool → Text → Text → Text → HttpRequest → Result HttpRequest
  intercept_method (some false) = intercept_message
  intercept_method (some true) = intercept_stream
  intercept_method none = intercept_stream

  abbrev pub intercept_path : Text → Option (Text × Text) → HttpRequest → Result HttpRequest
  intercept_path source none req = err bad_request
  intercept_path source (some (service_name, method_name)) req =
      intercept_method (p.is_client_streaming service_name method_name) source service_name
        method_name req

  unfoldable pub intercept : HttpRequest → Result HttpRequest
  intercept req = do
    source ← context missing_hostname req.hostname
    intercept_path source (parse_grpc_path req.path) req
