-- ===== src/Admin/Query.antt =====
-- crates/common/src/query.rs: query results, events, and the messages of api/admin/admin.proto
-- that carry them.
pub mod RoundTrip
use ghaf_givc.Prelude.{
  ◌≡◌, Option, none, some, List, map, list_eq, option_eq, nat_eq, Result, ok, err, ◌>>=◌, context,
  map_result, bad_vm_status, bad_trust_level, bad_vm_type, bad_service_type, repeated_initial,
  missing_item,
}
use ghaf_givc.Text.{Text}
use ghaf_givc.Admin.Types.{VmType, ServiceType}

pub data VmStatus : Type 0 where
  running powered_off paused : VmStatus

pub data TrustLevel : Type 0 where
  secure warning not_secure : TrustLevel

-- The conversions that the `strum` crate derives for an enumeration, and what its documentation
-- says of them: the text of a value is read back as this value.
pub record EnumText (A : Type 0) : Type 0 where
  pub to_string : A → Text
  pub from_str : Text → Option A
  pub from_str-to_string : (x : A) → from_str (to_string x) ≡ some x

pub record EnumTexts : Type 0 where
  pub vm_statuses : EnumText VmStatus
  pub trust_levels : EnumText TrustLevel
  pub vm_types : EnumText VmType
  pub service_types : EnumText ServiceType

pub record QueryResult : Type 0 where
  pub name : Text
  pub description : Text
  pub status : VmStatus
  pub trust_level : TrustLevel
  pub vm_type : VmType
  pub service_type : ServiceType
  pub vm_name : Option Text
  pub agent_name : Option Text

-- `QueryListItem` of the protocol.
pub record QueryListItem : Type 0 where
  pub name : Text
  pub description : Text
  pub vm_status : Text
  pub trust_level : Text
  pub vm_type : Text
  pub service_type : Text
  pub vm_name : Option Text
  pub agent_name : Option Text

pub data Event : Type 0 where
  unit_status_changed : QueryResult → Event
  unit_registered : QueryResult → Event
  unit_shutdown : QueryResult → Event

-- The `oneof` of `WatchItem`; `initial` carries a `QueryListResponse`, which is its list.
pub data WatchStatus : Type 0 where
  initial : List QueryListItem → WatchStatus
  added : QueryListItem → WatchStatus
  updated : QueryListItem → WatchStatus
  removed : QueryListItem → WatchStatus

-- `WatchItem` of the protocol.
pub record WatchItem : Type 0 where
  pub status : Option WatchStatus

module _ (texts : EnumTexts) where
  unfoldable pub query_result_from : QueryListItem → Result QueryResult
  query_result_from item = do
    status ← context bad_vm_status (texts.vm_statuses.from_str item.vm_status)
    trust_level ← context bad_trust_level (texts.trust_levels.from_str item.trust_level)
    vm_type ← context bad_vm_type (texts.vm_types.from_str item.vm_type)
    service_type ← context bad_service_type (texts.service_types.from_str item.service_type)
    ok (record {
      name = item.name;
      description = item.description;
      status = status;
      trust_level = trust_level;
      vm_type = vm_type;
      service_type = service_type;
      vm_name = item.vm_name;
      agent_name = item.agent_name;
    })

  unfoldable pub query_result_into : QueryResult → QueryListItem
  query_result_into val = record {
    name = val.name;
    description = val.description;
    vm_status = texts.vm_statuses.to_string val.status;
    trust_level = texts.trust_levels.to_string val.trust_level;
    vm_type = texts.vm_types.to_string val.vm_type;
    service_type = texts.service_types.to_string val.service_type;
    vm_name = val.vm_name;
    agent_name = val.agent_name;
  }

  unfoldable pub parse_list : List QueryListItem → Result (List QueryResult)
  parse_list items = map_result query_result_from items

  abbrev pub watch_item : WatchStatus → WatchItem
  watch_item s = record { status = some s }

  unfoldable pub into_initial : List QueryResult → WatchItem
  into_initial items = watch_item (initial (map query_result_into items))

  abbrev event_of : Option WatchStatus → Result Event
  event_of none = err missing_item
  event_of (some (initial items)) = err repeated_initial
  event_of (some (added value)) = do q ← query_result_from value; ok (unit_registered q)
  event_of (some (updated value)) = do q ← query_result_from value; ok (unit_status_changed q)
  event_of (some (removed value)) = do q ← query_result_from value; ok (unit_shutdown q)

  unfoldable pub event_from : WatchItem → Result Event
  event_from item = event_of item.status

  unfoldable pub event_into : Event → WatchItem
  event_into (unit_registered value) = watch_item (added (query_result_into value))
  event_into (unit_status_changed value) = watch_item (updated (query_result_into value))
  event_into (unit_shutdown value) = watch_item (removed (query_result_into value))
