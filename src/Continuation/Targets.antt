-- ===== src/Continuation/Targets.antt =====
-- continuation.go, the checks that a target is still the one that a source names:
-- validateContinuationTarget and validateWakeTargets.
use nexusdock.Shared.{
  String, str_eq, decimal, text_append, List, [], ◌∷◌, Option, Bool, true, false, ◌&&◌, ◌||◌, not,
  ◌==◌, find_first,
}
use nexusdock.Continuation.Types.{
  Error, no_rows, continuation_target_denied, Result, ok, ◌>>=◌, ◌>>◌, refuse_if, or_fail,
  ExecutionContext, CommandOutcome, WorkWake,
}
use nexusdock.Continuation.Store.{
  SessionStatus, TargetStatus, SessionRow, TargetRow, ProjectRow, DeploymentRow, DeviceRow,
  Database,
}

context_of : TargetRow → ExecutionContext
context_of t = record {
  work_session_id = t.work_session_id;
  target_id = t.id;
  project_id = t.project_id;
  deployment_id = t.deployment_id;
  deployment_revision = t.deployment_revision;
  context_revision = t.context_revision;
}

find_target : Database → String → String → Option TargetRow
find_target db ws target =
    find_first (λ t. str_eq t.work_session_id ws && str_eq t.id target) db.work_targets

abbrev pub is_live_target : TargetStatus → Bool
is_live_target TargetStatus.ready = true
is_live_target TargetStatus.running = true
is_live_target TargetStatus.idle = true
is_live_target _ = false

abbrev pub is_over : SessionStatus → Bool
is_over SessionStatus.cancelled = true
is_over SessionStatus.completed = true
is_over SessionStatus.failed = true
is_over _ = false

-- The row of the target as the session first bound it (`current` false).
unfoldable pub bound_target : Database → String → String → Result (ExecutionContext × String)
unfolding find_target context_of
bound_target db ws target = do
  t ← or_fail (find_target db ws target) no_rows
  ok (context_of t, t.node_id)

abbrev pub same_access : Bool → Bool → Bool
same_access true b = b
same_access false b = not b

-- The test of the joined row (`current` true).
target_is_current : TargetRow → SessionRow → ProjectRow → DeploymentRow → DeviceRow → Bool → Bool
target_is_current t s p d n full_access =
    same_access full_access n.full_access
    && is_live_target t.status
    && not (is_over s.status)
    && p.enabled
    && d.enabled
    && n.enabled
    && str_eq d.apply_status "applied"
    && d.desired_revision == d.applied_revision
    && str_eq t.deployment_revision (text_append "rev-" (decimal d.applied_revision))

-- A missing row of a joined table is NULL, which the scan refuses.
unfoldable pub current_target : Database → String → String → Result (ExecutionContext × String)
unfolding find_target context_of target_is_current
current_target db ws target = do
  t ← or_fail (find_target db ws target) continuation_target_denied
  s ←
      or_fail (find_first (λ s. str_eq s.id t.work_session_id) db.work_sessions)
        continuation_target_denied
  p ← or_fail (find_first (λ p. str_eq p.id t.project_id) db.projects) continuation_target_denied
  d ←
      or_fail (find_first (λ d. str_eq d.id t.deployment_id) db.deployments)
        continuation_target_denied
  n ← or_fail (find_first (λ n. str_eq n.id t.node_id) db.devices) continuation_target_denied
  full_access ← or_fail t.full_access Error.failed
  refuse_if (not (target_is_current t s p d n full_access)) continuation_target_denied
  ok (context_of t, t.node_id)

validate_sources : Database → String → List CommandOutcome → Result (Unit {0})
validate_sources db ws [] = ok tt
validate_sources db ws (o ∷ os) = do
  (c, _) ← current_target db ws o.execution_context.target_id
  refuse_if
      (not (str_eq c.deployment_revision o.execution_context.deployment_revision)
        || not (str_eq c.context_revision o.execution_context.context_revision))
      continuation_target_denied
  validate_sources db ws os

unfoldable pub validate_wake_targets : Database → WorkWake → Result (Unit {0})
unfolding validate_sources
validate_wake_targets db w = validate_sources db w.work_session_id w.sources
