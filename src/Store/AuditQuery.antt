-- ===== src/Store/AuditQuery.antt =====
-- memory.go: listAuditEventsQuery, and the query of store.go.
use ano_pki_community.Common.{
  String, Bool, List, ◌==◌, ◌&&◌, not, if◌then◌else◌, select, take, drop, sort_slice, text_before,
  before, after, equal, is_zero_time, ltb, ℕ, Time,
}
use ano_pki_community.Domain.{AuditEvent}

pub record AuditEventQuery : Type 0 where
  pub actor : String
  pub action : String
  pub resource_type : String
  pub resource_id : String
  pub created_from : Time
  pub created_to : Time
  pub sort : String
  pub limit : ℕ
  pub offset : ℕ

-- A filter that is set and does not fit.
abbrev pub misses : String → String → Bool
misses wanted found = not (wanted == "") && not (found == wanted)

unfoldable pub event_matches : AuditEventQuery → AuditEvent → Bool
event_matches q e =
    not (misses q.actor e.actor)
    && not (misses q.action e.action)
    && not (misses q.resource_type e.resource_type)
    && not (misses q.resource_id e.resource_id)
    && not (not (is_zero_time q.created_from) && before e.created_at q.created_from)
    && not (not (is_zero_time q.created_to) && after e.created_at q.created_to)

unfoldable pub event_less : AuditEventQuery → AuditEvent → AuditEvent → Bool
event_less q a b =
    if equal a.created_at b.created_at
    then (if q.sort == "desc" then text_before b.id a.id else text_before a.id b.id)
    else if q.sort == "desc"
    then after a.created_at b.created_at
    else before a.created_at b.created_at

-- `limit > 0 && limit < len(result)` bounds the result, which `take` does beyond its length too.
unfoldable pub list_audit_events_query : List AuditEvent → AuditEventQuery → List AuditEvent
unfolding event_matches event_less
list_audit_events_query events q =
    let found = drop q.offset (sort_slice (event_less q) (select (event_matches q) events)) in
    if ltb 0 q.limit then take q.limit found else found
