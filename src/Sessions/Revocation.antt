-- ===== src/Sessions/Revocation.antt =====
-- internal/project/session.go: the revocation of targets, in one transaction.
use nexusdock.Shared.{
  filter, ℕ, String, str_eq, is_empty, trim_space, decimal, text_append, ltb, ◌==◌, List, [], map,
  Bool, true, false, ◌&&◌, ◌||◌, not, any, count_if, find_first, if◌then◌else◌,
}
use nexusdock.Continuation.Types.{
  invalid, deployment_not_found, revision_conflict, Result, ok, ◌>>=◌, ◌>>◌, refuse_if, or_fail,
}
use nexusdock.Continuation.Store.{SessionStatus, TargetStatus}
use nexusdock.Sessions.Tables.{WorkSession, WorkTarget, Tables}
use nexusdock.Sessions.Listing.{sort_by, text_less}

abbrev pub is_revoked : TargetStatus → Bool
is_revoked TargetStatus.revoked = true
is_revoked _ = false

-- TargetReady, TargetIdle and TargetRunning.
abbrev pub is_usable : TargetStatus → Bool
is_usable TargetStatus.ready = true
is_usable TargetStatus.idle = true
is_usable TargetStatus.running = true
is_usable _ = false

abbrev pub of_session : String → WorkTarget → Bool
of_session ws t = str_eq t.work_session_id ws

-- workSessionStatusAfterRevocation.
unfoldable pub status_after_revocation : List WorkTarget → String → SessionStatus
status_after_revocation targets ws =
    let total = count_if (of_session ws) targets in
    let usable = count_if (λ t. of_session ws t && is_usable t.status) targets in
    if ltb 0 total && usable == total
    then SessionStatus.ready
    else if ltb 0 usable
    then SessionStatus.partial
    else SessionStatus.failed

-- ORDER BY work_session_id, id.
abbrev by_session : WorkTarget → WorkTarget → Bool
by_session t u =
    text_less t.work_session_id u.work_session_id
    || (str_eq t.work_session_id u.work_session_id && text_less t.id u.id)

-- The rows that `predicate AND status <> 'revoked'` selects.
abbrev pub selects : (WorkTarget → Bool) → WorkTarget → Bool
selects p t = p t && not (is_revoked t.status)

unfoldable pub revoke : ℕ → WorkTarget → WorkTarget
revoke now t = record t { status = TargetStatus.revoked; updated_at = now }

abbrev pub revoke_where : (WorkTarget → Bool) → ℕ → WorkTarget → WorkTarget
revoke_where p now t = if selects p t then revoke now t else t

-- The status of a session that had a target revoked; `targets` are those after it.
unfoldable pub close_session :
    List WorkTarget → (String → Bool) → Bool → ℕ → WorkSession → WorkSession
unfolding status_after_revocation
close_session targets touched cancel now s =
    if touched s.id
    then record s {
      status = (if cancel then SessionStatus.cancelled else status_after_revocation targets s.id);
      updated_at = now;
    }
    else s

-- The session has a target that is revoked.
abbrev pub touches : (WorkTarget → Bool) → List WorkTarget → String → Bool
touches p targets ws = any (λ t. selects p t && of_session ws t) targets

abbrev mark_revoked : WorkTarget → WorkTarget
mark_revoked t = record t { status = TargetStatus.revoked }

-- revokeTargetsGuarded: the tables, and the rows that it revoked as they were read.
unfoldable pub revoke_targets_guarded :
    Tables → ℕ → (WorkTarget → Bool) → Bool → Result (Unit {0}) → Result (Tables × List WorkTarget)
unfolding revoke close_session
revoke_targets_guarded db now p cancel guard =
    let items = sort_by by_session (filter (selects p) db.targets) in
    let targets = map (revoke_where p now) db.targets in
    guard
    >> (if any (selects p) db.targets
        then ok (
          record db {
            targets = targets;
            sessions = map (close_session targets (touches p db.targets) cancel now) db.sessions;
          },
          map mark_revoked items,
        )
        else ok (db, []))

abbrev pub of_deployment : String → WorkTarget → Bool
of_deployment deployment t = str_eq t.deployment_id deployment

unfoldable pub revoke_targets_for_deployment :
    Tables → ℕ → String → Result (Tables × List WorkTarget)
unfolding revoke_targets_guarded
revoke_targets_for_deployment db now deployment =
    let id = trim_space deployment in
    refuse_if (is_empty id) invalid
    >> revoke_targets_guarded db now (of_deployment id) false (ok tt)

-- revisionString.
abbrev pub revision_string : ℕ → String
revision_string n = text_append "rev-" (decimal n)

abbrev pub is_stale : String → String → WorkTarget → Bool
is_stale deployment revision t =
    of_deployment deployment t && not (str_eq t.deployment_revision revision)

-- The guard of RevokeStaleTargetsForDeployment.
unfoldable pub desired_is : Tables → String → String → Result (Unit {0})
desired_is db deployment revision =
    or_fail (find_first (λ d. str_eq d.id deployment) db.deployments) deployment_not_found >>= λ d.
    refuse_if (not (str_eq (revision_string d.desired_revision) revision))
      (revision_conflict (revision_string d.desired_revision))

unfoldable pub revoke_stale_targets_for_deployment :
    Tables → ℕ → String → String → Result (Tables × List WorkTarget)
unfolding revoke_targets_guarded desired_is
revoke_stale_targets_for_deployment db now deployment revision =
    let id = trim_space deployment in
    let desired = trim_space revision in
    refuse_if (is_empty id || is_empty desired) invalid
    >> revoke_targets_guarded db now (is_stale id desired) false (desired_is db id desired)

unfoldable pub revoke_targets_for_project : Tables → ℕ → String → Result (Tables × List WorkTarget)
unfolding revoke_targets_guarded
revoke_targets_for_project db now project =
    let id = trim_space project in
    refuse_if (is_empty id) invalid
    >> revoke_targets_guarded db now (λ t. str_eq t.project_id id) true (ok tt)
