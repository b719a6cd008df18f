-- ===== src/Access/Sound.antt =====
-- crates/admin/src/utils/access_control.rs: which requests pass the interceptor.
use ghaf_givc.Prelude.{
  ◌≡◌, sym, ap, subst, ◌∙◌, ◌≢◌, inl, inr, Bool, true, false, not, ◌||◌, Option, none, some, [],
  arith, Option-cases, ◌==◌, list_eq, option_eq, nat_eq, Error, ok, ensure, context, >>=-eq-ok,
  invalid_service_name, empty_tokens, missing_hostname,
}
use ghaf_givc.Text.{Text, split_once, trim}
use ghaf_givc.Access.{
  Policies, HttpRequest, decided, payload, authorize, message_context, intercept_message,
  intercept_stream, intercept_method, intercept_path, intercept, parse_grpc_path,
}

-- The engine allowed the request: the principal is the source, the action the method, and the
-- resource the part of the service's name before its first dot, and none of them is blank.
pub record IsAllowed (p : Policies) (source service_name method_name : Text) : Type 0 where
  pub module_name : Text
  pub service : Text
  pub split : split_once b'.' service_name ≡ some (module_name, service)
  pub source_named : (trim source == []) ≡ false
  pub method_named : (trim method_name == []) ≡ false
  pub module_named : (trim module_name == []) ≡ false
  pub details : p.Json
  pub allowed : p.is_authorized source method_name module_name details ≡ ok true

context-eq-ok : {A : Type 0} (x : Error) (o : Option A) {a : A} → context x o ≡ ok a → o ≡ some a
context-eq-ok x none e = cc
context-eq-ok x (some b) e = cc

decided-eq-ok : (b : Bool) {u : Unit {0}} → decided b ≡ ok u → b ≡ true
decided-eq-ok b e = ground arith

none_blank :
    (a b c d : Bool) {u : Unit {0}}
    → ensure (not (a || (b || (c || d)))) empty_tokens ≡ ok u
    → (a ≡ false) × (c ≡ false) × (d ≡ false)
none_blank a b c d e = ground arith

authorize-IsAllowed :
    (p : Policies) (source service_name method_name : Text) (json : p.Json) {u : Unit {0}}
    → authorize p source service_name method_name json ≡ ok u
    → IsAllowed p source service_name method_name
unfolding authorize
authorize-IsAllowed p source service_name method_name json e =
    let ((module_name, service), s, e1) =
      >>=-eq-ok (context invalid_service_name (split_once b'.' service_name)) _ e in
    let (_, named, e2) = >>=-eq-ok (ensure _ empty_tokens) _ e1 in
    let (a, c, d) = none_blank _ _ _ _ named in
    let (answer, asked, e3) = >>=-eq-ok (p.is_authorized source method_name module_name _) _ e2 in
    record {
      module_name = module_name;
      service = service;
      split = context-eq-ok invalid_service_name (split_once b'.' service_name) s;
      source_named = d;
      method_named = c;
      module_named = a;
      details = p.insert_service service json;
      allowed = asked ∙ ap ok (decided-eq-ok answer e3);
    }

-- The request comes from a known host, its path names a service and a method, the engine allowed
-- this host to call it, and the request passes with the body that it came with.
pub record Passes (p : Policies) (req passed : HttpRequest) : Type 0 where
  pub source : Text
  pub service_name : Text
  pub method_name : Text
  pub from_host : req.hostname ≡ some source
  pub of_path : parse_grpc_path req.path ≡ some (service_name, method_name)
  pub is_allowed : IsAllowed p source service_name method_name
  pub unchanged : passed ≡ req

intercept_message-Passes :
    (p : Policies) (source service_name method_name : Text) (req passed : HttpRequest)
    → intercept_message p source service_name method_name req ≡ ok passed
    → IsAllowed p source service_name method_name × (passed ≡ req)
intercept_message-Passes p source service_name method_name req passed e =
    let (bytes, body, e1) = >>=-eq-ok req.body _ e in
    let (json, _, e2) =
      >>=-eq-ok (message_context p service_name method_name (payload bytes)) _ e1 in
    let (_, granted, e3) = >>=-eq-ok (authorize p source service_name method_name json) _ e2 in
    (
      authorize-IsAllowed p source service_name method_name json granted,
      subst (λ r. r ≡ req) (cc e3) (ap (λ b. record req { body = b }) (sym body)),
    )

intercept_stream-Passes :
    (p : Policies) (source service_name method_name : Text) (req passed : HttpRequest)
    → intercept_stream p source service_name method_name req ≡ ok passed
    → IsAllowed p source service_name method_name × (passed ≡ req)
intercept_stream-Passes p source service_name method_name req passed e =
    let (_, granted, e1) =
      >>=-eq-ok (authorize p source service_name method_name p.empty_object) _ e in
    (authorize-IsAllowed p source service_name method_name p.empty_object granted, cc e1)

intercept_method-Passes :
    (p : Policies) (streaming : Option Bool) (source service_name method_name : Text)
    (req passed : HttpRequest)
    → intercept_method p streaming source service_name method_name req ≡ ok passed
    → IsAllowed p source service_name method_name × (passed ≡ req)
intercept_method-Passes p (some false) = intercept_message-Passes p
intercept_method-Passes p (some true) = intercept_stream-Passes p
intercept_method-Passes p none = intercept_stream-Passes p

path_missing :
    (p : Policies) (source : Text) (req passed : HttpRequest)
    → intercept_path p source none req ≢ ok passed
path_missing p source req passed e = cc

-- A request that the interceptor lets through names its host, a service and a method; the policy
-- engine allowed this host to call this method of this module; and the request is unchanged, its
-- body put back as it was.
pub intercept-Passes :
    (p : Policies) (req passed : HttpRequest) → intercept p req ≡ ok passed → Passes p req passed
unfolding intercept
intercept-Passes p req passed e =
    let (source, from_host, e1) = >>=-eq-ok (context missing_hostname req.hostname) _ e in
    elim (Option-cases (parse_grpc_path req.path)) [
      | inl n ↦ absurd (path_missing p source req passed (rw n at e1))
      | inr ((service_name, method_name), f) ↦
          let through : intercept_path p source (some (service_name, method_name)) req ≡ ok passed =
            rw f at e1 in
          let (granted, same) =
            intercept_method-Passes p (p.is_client_streaming service_name method_name) source
              service_name method_name req passed through in
          record {
            source = source;
            service_name = service_name;
            method_name = method_name;
            from_host = context-eq-ok missing_hostname req.hostname from_host;
            of_path = f;
            is_allowed = granted;
            unchanged = same;
          }
    ]

-- A denial is final: where the engine denies every request, nothing passes.
intercept-denied :
    (p : Policies) (req passed : HttpRequest)
    → ((a b c : Text) (j : p.Json) → p.is_authorized a b c j ≡ ok false)
    → intercept p req ≢ ok passed
intercept-denied p req passed denies e =
    let passes = intercept-Passes p req passed e in
    let allowed = passes.is_allowed in
    let both : ok true ≡ ok false =
      sym allowed.allowed
      ∙ denies passes.source passes.method_name allowed.module_name allowed.details in
    cc both
