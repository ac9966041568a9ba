-- ===== src/Sessions/Examples.antt =====
-- Sessions on concrete inputs: one session that is opened, given a target, told of its context and
-- revoked, and the theorems at that run.
use nexusdock.Shared.{
  ◌≡◌, ◌↔◌, refl, String, str_eq, trim_space, is_space, is_blank, List, [], ◌∷◌, none, some, Bool,
  true, false, ◌&&◌, ◌||◌, not, any,
}
use nexusdock.Continuation.Types.{Result, ok, err, ◌>>=◌, ◌>>◌, refuse_if, or_fail}
use nexusdock.Continuation.Store.{SessionStatus, TargetStatus}
use nexusdock.Sessions.Tables.{
  host_consumed, WorkSession, WorkTarget, ContextDelivery, Tables, get_work_session,
  get_work_target,
}
use nexusdock.Sessions.Opening.{OpenRequest, new_session, begin_work_session}
use nexusdock.Sessions.Binding.{Provenances, put_work_target}
use nexusdock.Sessions.Revocation.{
  is_usable, of_session, status_after_revocation, of_deployment, revoke_targets_guarded,
  revoke_targets_for_deployment, revoke,
}
use nexusdock.Sessions.Delivery.{
  check_delivery_owner, find_delivery, get_context_delivery, upsert_delivery, acknowledged,
  record_context_returned, acknowledge_context_consumed,
}
use nexusdock.Sessions.Retries.{begin_retry}
use nexusdock.Sessions.Keys.{
  Keyed, Reach, starts, follows, begins, puts, returns_context, acknowledges, Reach-Keyed,
}
use nexusdock.Sessions.Revoked.{Revokes, revoke-Revokes, status_after_revocation_lem}
use nexusdock.Sessions.Consumption.{consumption_kept}

abbrev empty : Tables
empty = record {
  projects = record { id = "p"; node_id = none } ∷ [];
  deployments = record { id = "d"; desired_revision = 3 } ∷ [];
  sessions = [];
  targets = [];
  deliveries = [];
}

abbrev request : String → String → OpenRequest
request project hash = record {
  owner_key = "alice";
  project_id = project;
  client_request_id = " r1";
  request_hash = hash;
  project_revision = "rev-1";
}

abbrev provenances : Provenances
provenances = record {
  unknown = record { kind = "unknown"; details = "" };
  is_valid = λ s. str_eq s.kind "unknown" || str_eq s.kind "git";
}

abbrev item : WorkTarget
item = record {
  id = "";
  work_session_id = "ws_1";
  project_id = "p";
  deployment_id = "d";
  node_id = "n";
  cwd_rel = ".";
  deployment_revision = "rev-3";
  context_revision = "c1";
  status = TargetStatus.ready;
  permissions = "{}";
  prompt = "{}";
  prompt_scopes = "[]";
  source_provenance = record { kind = ""; details = "" };
  created_at = none;
  updated_at = 0;
}

abbrev opened : Tables × Result (WorkSession × Bool)
opened = begin_work_session ("ws_1" ∷ []) empty 1 (request "p" "h1")

abbrev bound : Tables
bound =
    (put_work_target provenances ("t_1" ∷ []) opened.0 2 "alice" item (some TargetStatus.ready)).0

abbrev told : Tables
told = (record_context_returned bound 3 "alice" "ws_1" "t_1" "c1").0

abbrev consumed : Tables × Result ContextDelivery
consumed = acknowledge_context_consumed told 4 "alice" "ws_1" "t_1" "c1"

abbrev revocation : Result (Tables × List WorkTarget)
revocation = revoke_targets_guarded consumed.0 5 (of_deployment "d") false (ok tt)

-- The names that a run has to unfold.
is_ok : {A : Type 0} → Result A → Bool
unfolding is_space is_blank trim_space ◌>>=◌ ◌>>◌ refuse_if or_fail get_work_session get_work_target
    new_session begin_work_session put_work_target record_context_returned
    acknowledge_context_consumed revoke_targets_guarded revoke_targets_for_deployment
    check_delivery_owner find_delivery get_context_delivery upsert_delivery acknowledged
    status_after_revocation revoke
is_ok (ok r) = true
is_ok (err e) = false

abbrev session : WorkSession
session = record (new_session (request "p" "h1") "ws_1" 1) { client_request_id = "r1" }

run_opens : opened.1 ≡ ok (session, true)
unfolding is_ok
run_opens = refl

run_revokes : is_ok revocation ≡ true
unfolding is_ok
run_revokes = refl

begin_retry_example :
    begin_work_session ("ws_2" ∷ []) opened.0 9 (request " p " "h1")
    ≡ (opened.0, ok (session, false))
unfolding is_ok
begin_retry_example =
    begin_retry ("ws_1" ∷ []) empty opened.0 1 9 (request "p" "h1") (request " p " "h1") session
      true "ws_2" [] (refl, tt) refl (record { owner = refl; request = refl }) refl refl refl

history : Reach provenances empty consumed.0
history =
    follows
      (follows
        (follows (follows starts (begins ("ws_1" ∷ []) 1 (request "p" "h1")))
          (puts ("t_1" ∷ []) 2 "alice" item (some TargetStatus.ready)))
        (returns_context 3 "alice" "ws_1" "t_1" "c1"))
      (acknowledges 4 "alice" "ws_1" "t_1" "c1")

empty-Keyed : Keyed empty
empty-Keyed = record { ids = tt; requests = tt; target_ids = tt; slots = tt }

Reach-Keyed_example : Keyed consumed.0
Reach-Keyed_example = Reach-Keyed provenances empty consumed.0 history empty-Keyed

abbrev after_revocation : Tables
after_revocation = elim revocation [ ok r ↦ r.0 | err e ↦ empty ]

abbrev revoked_items : List WorkTarget
revoked_items = elim revocation [ ok r ↦ r.1 | err e ↦ [] ]

revoke-Revokes_example : Revokes (of_deployment "d") 5 consumed.0 after_revocation revoked_items
unfolding is_ok
revoke-Revokes_example =
    revoke-Revokes consumed.0 after_revocation 5 (of_deployment "d") false (ok tt) revoked_items
      refl

status_after_revocation_lem_example :
    ((status_after_revocation bound.targets "ws_1" ≡ SessionStatus.ready) ↔ (
      (any (of_session "ws_1") bound.targets ≡ true)
      × (any (λ t. of_session "ws_1" t && not (is_usable t.status)) bound.targets ≡ false)))
    × ((status_after_revocation bound.targets "ws_1" ≡ SessionStatus.failed)
        ↔ (any (λ t. of_session "ws_1" t && is_usable t.status) bound.targets ≡ false))
status_after_revocation_lem_example = status_after_revocation_lem bound.targets "ws_1"

abbrev delivery : ContextDelivery
delivery = record {
  work_session_id = "ws_1";
  target_id = "t_1";
  context_revision = "c1";
  status = host_consumed;
  returned_at = 3;
  host_consumed_at = some 4;
  updated_at = 4;
}

consumption_kept_example :
    (delivery.status ≡ host_consumed)
    × (delivery.context_revision ≡ trim_space "c1")
    × ((record_context_returned consumed.0 9 "alice" "ws_1" "t_1" "c1").1
        ≡ ok (record delivery { returned_at = 9; updated_at = 9 }))
    × ((acknowledge_context_consumed consumed.0 9 "alice" "ws_1" "t_1" "c1").1
        ≡ ok (record delivery { updated_at = 9 }))
unfolding is_ok
consumption_kept_example =
    consumption_kept told consumed.0 4 9 "alice" "ws_1" "t_1" "c1" delivery refl
