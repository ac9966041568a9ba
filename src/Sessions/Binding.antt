-- ===== src/Sessions/Binding.antt =====
-- internal/project/session.go: PutWorkTarget.
use nexusdock.Shared.{
  ℕ, String, str_eq, is_empty, is_blank, List, [], ◌∷◌, ◌++◌, map, Option, none, some, Bool, ◌&&◌,
  ◌||◌, not, any, if◌then◌else◌,
}
use nexusdock.Continuation.Types.{invalid, failed, Result, ok, err}
use nexusdock.Continuation.Store.{TargetStatus}
use nexusdock.Sessions.Tables.{
  SourceProvenance, WorkTarget, Tables, get_work_session, get_work_target,
}

-- What the code takes from the protocol package: the provenance of kind `unknown`, and
-- SourceProvenance.Validate.
pub record Provenances : Type 0 where
  pub unknown : SourceProvenance
  pub is_valid : SourceProvenance → Bool

-- What ON CONFLICT(id) DO UPDATE takes over.
unfoldable pub refreshed : WorkTarget → WorkTarget → WorkTarget
refreshed item t = record t {
  cwd_rel = item.cwd_rel;
  deployment_revision = item.deployment_revision;
  context_revision = item.context_revision;
  status = item.status;
  permissions = item.permissions;
  prompt = item.prompt;
  prompt_scopes = item.prompt_scopes;
  source_provenance = item.source_provenance;
  updated_at = item.updated_at;
}

-- INSERT INTO work_targets … ON CONFLICT(id) DO UPDATE: a new row needs its session, and is the
-- only one of its session and deployment.
unfoldable pub upsert_target : Tables → WorkTarget → Result Tables
unfolding refreshed
upsert_target db item =
    if any (λ t. str_eq t.id item.id) db.targets
    then ok (record db {
      targets = map (λ t. if str_eq t.id item.id then refreshed item t else t) db.targets;
    })
    else if not (any (λ s. str_eq s.id item.work_session_id) db.sessions)
        || any
            (λ t.
              str_eq t.work_session_id item.work_session_id
              && str_eq t.deployment_id item.deployment_id)
            db.targets
    then err failed
    else ok (record db { targets = db.targets ++ item ∷ [] })

abbrev created : Option ℕ → ℕ → Option ℕ
created none now = some now
created (some t) now = some t

-- The row that is written.
unfoldable pub target_row : Provenances → ℕ → WorkTarget → TargetStatus → WorkTarget
target_row p now item status = record item {
  status = status;
  source_provenance =
      (if is_empty item.source_provenance.kind then p.unknown else item.source_provenance);
  created_at = created item.created_at now;
  updated_at = now;
}

-- The read after the write.
unfoldable pub target_written :
    Tables → String → WorkTarget → Result Tables → Tables × Result WorkTarget
unfolding get_work_target
target_written db owner item (err e) = (db, err e)
target_written db owner item (ok db') =
    (db', get_work_target db' owner item.work_session_id item.id)

-- PutWorkTarget from the test of the status on.
unfoldable pub store_target :
    Provenances
    → Tables
    → ℕ
    → String
    → WorkTarget
    → Option TargetStatus
    → Tables × Result WorkTarget
unfolding target_row upsert_target target_written
store_target p db now owner item none = (db, err invalid)
store_target p db now owner item (some status) =
    let row = target_row p now item status in
    if not (p.is_valid row.source_provenance)
    then (db, err invalid)
    else target_written db owner item (upsert_target db row)

-- The id of an item that has none is the next of the supplied ids.
unfoldable pub store_named :
    Provenances
    → List String
    → Tables
    → ℕ
    → String
    → WorkTarget
    → Option TargetStatus
    → Tables × Result WorkTarget
unfolding store_target
store_named p [] db now owner item status =
    if is_blank item.id then (db, err failed) else store_target p db now owner item status
store_named p (id ∷ ids) db now owner item status =
    store_target p db now owner (if is_blank item.id then record item { id = id } else item) status

-- PutWorkTarget. The status is that of the item; `none` is a text that is no status.
unfoldable pub put_work_target :
    Provenances
    → List String
    → Tables
    → ℕ
    → String
    → WorkTarget
    → Option TargetStatus
    → Tables × Result WorkTarget
unfolding store_named get_work_session
put_work_target p ids db now owner item status =
    elim (get_work_session db owner item.work_session_id) [
      | err e ↦ (db, err e)
      | ok s ↦ store_named p ids db now owner item status
    ]
