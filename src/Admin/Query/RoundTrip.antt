-- ===== src/Admin/Query/RoundTrip.antt =====
-- crates/common/src/query.rs: results and events through their messages.
use ghaf_givc.Prelude.{
  ◌≡◌, refl, List, [], ◌∷◌, map, list_eq, option_eq, nat_eq, ok, err, map_result, repeated_initial,
}
use ghaf_givc.Admin.Query.{
  EnumTexts, QueryResult, Event, unit_status_changed, unit_registered, unit_shutdown,
  query_result_from, query_result_into, parse_list, into_initial, event_from, event_into,
}

module _ (texts : EnumTexts) where
  pub query_result_from-query_result_into :
      (q : QueryResult) → query_result_from texts (query_result_into texts q) ≡ ok q
  unfolding query_result_from query_result_into
  query_result_from-query_result_into q =
      rw
        (
          texts.vm_statuses.from_str-to_string q.status,
          texts.trust_levels.from_str-to_string q.trust_level,
          texts.vm_types.from_str-to_string q.vm_type,
          texts.service_types.from_str-to_string q.service_type,
        )
        refl

-- The list of results in a response is read back whole, whatever its results are.
parse_list-query_result_into :
    (texts : EnumTexts) (qs : List QueryResult)
    → parse_list texts (map (query_result_into texts) qs) ≡ ok qs
unfolding parse_list map_result
parse_list-query_result_into texts [] = refl
parse_list-query_result_into texts (q ∷ qs) =
    rw (query_result_from-query_result_into texts q, parse_list-query_result_into texts qs) refl

-- An event is read back from its message; the message with the initial contents is never an event.
event_from-event_into :
    (texts : EnumTexts) (event : Event) (qs : List QueryResult)
    → (event_from texts (event_into texts event) ≡ ok event)
      × (event_from texts (into_initial texts qs) ≡ err repeated_initial)
unfolding event_from event_into into_initial
event_from-event_into texts (unit_status_changed q) qs =
    (rw (query_result_from-query_result_into texts q) refl, refl)
event_from-event_into texts (unit_registered q) qs =
    (rw (query_result_from-query_result_into texts q) refl, refl)
event_from-event_into texts (unit_shutdown q) qs =
    (rw (query_result_from-query_result_into texts q) refl, refl)
