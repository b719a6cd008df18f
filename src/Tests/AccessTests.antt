-- ===== src/Tests/AccessTests.antt =====
-- crates/admin/src/utils/access_control.rs: one request, under a policy for one host and under one
-- that denies everything.
use ghaf_givc.Prelude.{
  refl, Bool, false, Option, none, some, [], ◌∷◌, ◌==◌, list_beq, list_eq, option_eq, nat_eq, ok,
}
use ghaf_givc.Text.{Text, codes, split_once, split_char, trim, trim_start, trim_end, is_whitespace}
use ghaf_givc.Access.{
  Policies, HttpRequest, intercept, authorize, parse_grpc_path, payload, trim_start_slashes,
  trim_end_slashes,
}
use ghaf_givc.Access.Sound.{Passes, intercept-Passes}

abbrev policies : (Text → Text → Text → Bool) → Policies
policies allows = record {
  Json = Option Text;
  empty_object = none;
  insert_service = λ name json. some name;
  is_authorized = λ principal action resource json. ok (allows principal action resource);
  is_client_streaming = λ service method. some false;
  decode = λ service method bytes. ok none;
}

abbrev one_host : Text → Text → Text → Bool
one_host principal action resource = principal == codes "gui-vm"

abbrev nobody : Text → Text → Text → Bool
nobody principal action resource = false

abbrev request : HttpRequest
request = record {
  hostname = some (codes "gui-vm");
  path = codes "/admin.AdminService/StartVM";
  body = ok (0 ∷ 0 ∷ 0 ∷ 0 ∷ 1 ∷ 8 ∷ []);
}

intercept-Passes_example : Passes (policies one_host) request request
unfolding intercept authorize parse_grpc_path trim_start_slashes trim_end_slashes payload split_once
    split_char trim trim_start trim_end is_whitespace list_beq
intercept-Passes_example = intercept-Passes (policies one_host) request request refl
