-- ===== src/Sessions/Delivery.antt =====
-- internal/project/delivery.go: whether the host has got and consumed the context of a session.
use nexusdock.Shared.{
  ℕ, String, str_eq, is_empty, trim_space, List, [], ◌∷◌, map, Option, none, some, Bool, true,
  false, ◌&&◌, ◌||◌, not, any, find_first, if◌then◌else◌,
}
use nexusdock.Continuation.Types.{
  invalid, context_delivery_not_found, delivery_revision_conflict, work_target_not_found, Result,
  ok, err, ◌>>=◌, ◌>>◌, refuse_if, or_fail,
}
use nexusdock.Sessions.Tables.{
  DeliveryState, returned, host_consumed, ContextDelivery, Tables, get_work_session,
  get_work_target,
}
use nexusdock.Sessions.Listing.{get_project_work_session, list_project_work_targets}

-- validateContextDeliveryOwner.
unfoldable pub check_delivery_owner : Tables → String → String → String → Result (Unit {0})
check_delivery_owner db owner ws target = get_work_session db owner ws >>= λ s.
    if is_empty target then ok tt else get_work_target db owner ws target >>= λ t. ok tt

abbrev pub is_delivery : String → String → ContextDelivery → Bool
is_delivery ws target d = str_eq d.work_session_id ws && str_eq d.target_id target

unfoldable pub find_delivery : Tables → String → String → Result ContextDelivery
find_delivery db ws target =
    or_fail (find_first (is_delivery ws target) db.deliveries) context_delivery_not_found

unfoldable pub get_context_delivery : Tables → String → String → String → Result ContextDelivery
get_context_delivery db owner ws target =
    check_delivery_owner db (trim_space owner) (trim_space ws) (trim_space target)
    >> find_delivery db (trim_space ws) (trim_space target)

unfoldable pub get_project_context_delivery :
    Tables → String → String → String → Result ContextDelivery
get_project_context_delivery db project ws target =
    let id = trim_space target in
    let known = list_project_work_targets db project ws >>= λ ts.
    refuse_if (not (any (λ t. str_eq t.id id) ts)) work_target_not_found in
    get_project_work_session db project ws >>= λ s.
    (if is_empty id then ok tt else known) >> find_delivery db (trim_space ws) id

abbrev pub is_consumed : DeliveryState → Bool
is_consumed host_consumed = true
is_consumed returned = false

-- ON CONFLICT … DO UPDATE: a consumed delivery of the same revision stays consumed.
unfoldable pub returned_again : ContextDelivery → String → ℕ → ContextDelivery
returned_again d revision now =
    let keep = str_eq d.context_revision revision && is_consumed d.status in
    record d {
      context_revision = revision;
      status = (if keep then host_consumed else returned);
      returned_at = now;
      host_consumed_at = (if keep then d.host_consumed_at else none);
      updated_at = now;
    }

-- The rows keep the key (work_session_id, target_id) unique.
unfoldable pub upsert_delivery :
    List ContextDelivery → String → String → String → ℕ → List ContextDelivery
upsert_delivery [] ws target revision now =
    record {
      work_session_id = ws;
      target_id = target;
      context_revision = revision;
      status = returned;
      returned_at = now;
      host_consumed_at = none;
      updated_at = now;
    }
    ∷ []
upsert_delivery (d ∷ ds) ws target revision now =
    if is_delivery ws target d
    then returned_again d revision now ∷ ds
    else d ∷ upsert_delivery ds ws target revision now

-- RecordContextReturned.
unfoldable pub record_context_returned :
    Tables → ℕ → String → String → String → String → Tables × Result ContextDelivery
record_context_returned db now owner ws target revision =
    let o = trim_space owner in
    let w = trim_space ws in
    let t = trim_space target in
    let r = trim_space revision in
    let db' = record db { deliveries = upsert_delivery db.deliveries w t r now } in
    if is_empty o || is_empty w || is_empty r
    then (db, err invalid)
    else elim (check_delivery_owner db o w t) [
      | err e ↦ (db, err e)
      | ok u ↦ (db', get_context_delivery db' o w t)
    ]

abbrev pub first_time : Option ℕ → ℕ → Option ℕ
first_time none now = some now
first_time (some t) now = some t

unfoldable pub acknowledged : ContextDelivery → ℕ → ContextDelivery
acknowledged d now = record d {
  status = host_consumed;
  host_consumed_at = first_time d.host_consumed_at now;
  updated_at = now;
}

abbrev pub acknowledge_row : String → String → String → ℕ → ContextDelivery → ContextDelivery
acknowledge_row ws target revision now d =
    if is_delivery ws target d && str_eq d.context_revision revision then acknowledged d now else d

-- AcknowledgeContextConsumed.
unfoldable pub acknowledge_context_consumed :
    Tables → ℕ → String → String → String → String → Tables × Result ContextDelivery
acknowledge_context_consumed db now owner ws target revision =
    let o = trim_space owner in
    let w = trim_space ws in
    let t = trim_space target in
    let r = trim_space revision in
    let db' = record db { deliveries = map (acknowledge_row w t r now) db.deliveries } in
    if is_empty o || is_empty w || is_empty r
    then (db, err invalid)
    else elim (check_delivery_owner db o w t >> find_delivery db w t) [
      | err e ↦ (db, err e)
      | ok d ↦
          if str_eq d.context_revision r
          then (db', get_context_delivery db' o w t)
          else (db, err (delivery_revision_conflict d.context_revision))
    ]
