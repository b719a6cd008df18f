-- ===== src/Admin/Entry/Requests.antt =====
-- crates/admin/src/admin/entry.rs: the entry that a registration request makes.
use ghaf_givc.Prelude.{
  ◌≡◌, refl, subst, Option, none, some, list_eq, option_eq, nat_eq, Error, ok, context, >>=-eq-ok,
  status_missing, endpoint_missing,
}
use ghaf_givc.Admin.Types.{
  unit_type_from, unit_type_into, unit_status_from, EndpointEntry, TransportMessage, endpoint_from,
}
use ghaf_givc.Admin.Types.RoundTrip.{unit_type_into-unit_type_from}
use ghaf_givc.Admin.Naming.{parse_vm_name}
use ghaf_givc.Admin.Entry.{
  RegistryEntry, RegistryRequest, endpoint_of, agent_name, agent, is_watched, entry_from, or_empty,
}

-- The entry is the request's: its name, the type with the number, an agent of its own that is
-- reached at the endpoint of the transport, in the machine of the parent.
pub record IsOf (req : RegistryRequest) (e : RegistryEntry) : Type 0 where
  pub same_name : e.name ≡ req.name
  pub same_type : unit_type_into e.unit_type ≡ req.unit_type
  pub own_agent : agent_name e ≡ some req.name
  pub endpoint : EndpointEntry
  pub transport : TransportMessage
  pub sent : req.transport ≡ some transport
  pub decoded : endpoint_from transport ≡ ok endpoint
  pub reached : agent e ≡ ok endpoint
  pub placed : e.placement ≡ endpoint_of endpoint (or_empty (parse_vm_name req.parent))
  pub watched : e.watch ≡ is_watched e.unit_type

context-eq-ok : {A : Type 0} (x : Error) (o : Option A) {a : A} → context x o ≡ ok a → o ≡ some a
context-eq-ok x none e = cc
context-eq-ok x (some b) e = cc

-- A request that is accepted makes an entry with its name, its type and its transport's endpoint,
-- which is an agent of its own and is watched exactly if its type is.
pub entry_from_sound :
    (req : RegistryRequest) (e : RegistryEntry) → entry_from req ≡ ok e → IsOf req e
unfolding entry_from
entry_from_sound req e h =
    let (ty, typed, h1) = >>=-eq-ok (unit_type_from req.unit_type) _ h in
    let (state, _, h2) = >>=-eq-ok (context status_missing req.state) _ h1 in
    let (status, _, h3) = >>=-eq-ok (unit_status_from state) _ h2 in
    let (transport, sent, h4) = >>=-eq-ok (context endpoint_missing req.transport) _ h3 in
    let (endpoint, decoded, h5) = >>=-eq-ok (endpoint_from transport) _ h4 in
    let made : RegistryEntry = record {
      name = req.name;
      unit_type = ty;
      status = status;
      placement = endpoint_of endpoint (or_empty (parse_vm_name req.parent));
      watch = is_watched ty;
    } in
    let same : made ≡ e = cc h5 in
    subst (IsOf req) same (record {
      same_name = refl;
      same_type = unit_type_into-unit_type_from req.unit_type ty typed;
      own_agent = unfold agent_name in refl;
      endpoint = endpoint;
      transport = transport;
      sent = context-eq-ok endpoint_missing req.transport sent;
      decoded = decoded;
      reached = unfold agent in refl;
      placed = refl;
      watched = refl;
    })
