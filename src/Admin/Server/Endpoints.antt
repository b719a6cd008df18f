-- ===== src/Admin/Server/Endpoints.antt =====
-- crates/admin/src/admin/server.rs: which agent answers for an entry of the registry.
use ghaf_givc.Prelude.{
  Option, none, some, List, [], ◌∷◌, if◌then◌else◌, ◌==◌, list_eq, option_eq, nat_eq, any, Result,
  ok, err, ◌>>=◌, endpoint_of_host,
}
use ghaf_givc.Text.{Text}
use ghaf_givc.Admin.Types.{EndpointEntry, host, mgr}
use ghaf_givc.Admin.Entry.{RegistryEntry, Placement, endpoint_of, managed, on_host, agent}
use ghaf_givc.Admin.Registry.{Registry, by_type, by_name, find_names}
use ghaf_givc.Admin.Server.World.{TlsConfig, EndpointConfig, Service}

-- The configured certificates, for the agent's own name.
abbrev named_tls : Text → Option TlsConfig → Option TlsConfig
named_tls tls_name none = none
named_tls tls_name (some tls) = some (record tls { tls_name = some tls_name })

abbrev pub endpoint_config : Option TlsConfig → EndpointEntry → EndpointConfig
endpoint_config tls transport = record {
  transport = transport;
  tls = named_tls transport.tls_name tls;
}

-- The endpoint of a unit is that of its agent, which must not itself be managed.
unfoldable pub transport_of : Registry → Placement → Result EndpointEntry
transport_of reg (endpoint_of transport vm) = ok transport
transport_of reg (managed vm parent) = by_name parent reg >>= agent
transport_of reg on_host = err endpoint_of_host

unfoldable pub endpoint : RegistryEntry → Service → Result EndpointConfig
endpoint entry s = do
  transport ← transport_of s.registry entry.placement
  ok (endpoint_config s.tls_config transport)

unfoldable pub host_endpoint : Service → Result EndpointConfig
host_endpoint s = do
  host_mgr ← by_type (record { vm = host; service = mgr }) s.registry
  endpoint host_mgr s

unfoldable pub agent_endpoint : Text → Service → Result EndpointConfig
agent_endpoint name s = do reentry ← by_name name s.registry; endpoint reentry s

-- The text itself, unless it is the name of a numbered instance or the beginning of one.
unfoldable pub app_entries : Text → Service → Result (List Text)
app_entries name s =
    if any (λ c. c == b'@') name then find_names name s.registry else ok (name ∷ [])
