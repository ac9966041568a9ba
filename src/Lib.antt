-- ===== src/Lib.antt =====
-- Verification library for NexusDock: its project store with projects, deployments, work sessions
-- and their continuation, the OAuth clients and grants by which a client reaches them, the login on
-- its web pages, and the records and edits of its recall.
--
-- NexusDock (cmd/nexusdock, internal/) keeps projects, work sessions and their targets in one
-- SQLite database. A work session may be continued on its own: the model awaits commands that
-- run on nodes, nodes report the outcomes (RecordCommandOutcomes), a view in the host claims a
-- wake and sends one message (ControllerContinuation), and the model consumes the outcomes with a
-- credential that is in the message (ConsumeWorkWake) and settles the wake (ControlContinuation).
-- A client registers and reaches the server with an access token (internal/auth): a code is
-- exchanged for a grant, whose refresh token rotates.
-- A project is deployed on nodes; each deployment has a desired revision, which an edit raises, and
-- the revision that its node applied. Recall keeps notes and lifecycle records in files.
-- The parts interact through the tables only, in transactions that SQLite makes one after another;
-- the statements of an operation that opens no transaction are taken to run without another writer
-- in between.
--
-- The files, for internal/project/continuation.go:
--   Continuation/Types       the structs, errors, durations and the parameters
--   Continuation/Document    findWake, attemptForWake, blockedWake, failContinuation,
--                            expireContinuation, continuationResult
--   Continuation/Store       the tables; loadContinuation, saveContinuation, compactContinuation,
--                            changeContinuation, readContinuation
--   Continuation/Targets     validateContinuationTarget, validateWakeTargets
--   Continuation/Outcomes    mergeContinuationOutcome, mergeStoredContinuationOutcomes
--   Continuation/Receipts    RecordCommandOutcomes, expireUnawaitedReceipts
--   Continuation/Control     ControlContinuation
--   Continuation/Controller  PresentContinuation, controllerIdentity, ControllerContinuation
--   Continuation/Dispatch    ControllerContinuation: prepare and finish, and the switch
--   Continuation/Consume     ConsumeWorkWake
-- for internal/project/session.go:
--   Sessions/Tables          the tables; GetWorkSession, GetWorkTarget, FindWorkTargetByDeployment
--   Sessions/Opening         BeginWorkSession, SetWorkSessionState, UpdateWorkSessionContext
--   Sessions/Listing         the lists, and the reads for a project or a node
--   Sessions/Binding         PutWorkTarget
--   Sessions/Revocation      revokeTargetsGuarded and its callers,
--                            workSessionStatusAfterRevocation
-- for internal/project/delivery.go:
--   Sessions/Delivery        RecordContextReturned, AcknowledgeContextConsumed and the reads
-- for internal/project/store.go:
--   Projects/Revisions       parseRevision
--   Projects/Tables          the tables, scanProject, scanDeployment and the reads
--   Projects/Folders         isWindowsAbsolutePath, validateWorkingFolderForOS
--   Projects/Writes          CreateProject, UpdateProject, DeleteProject, stageRemoval
--   Projects/Rollout         CreateDeployment, UpdateDeployment, DeleteDeployment,
--                            RecordApplyResult, MarkPending, RecordRemovalResult
--   Projects/Nodes           PutNodeSessionConfiguration, DeleteNodeSession
-- for internal/recall/lifecycle.go and edit.go:
--   Recall/Records           a record and its checks
--   Recall/Lifecycle         TransitionLifecycle with its reads and writes
--   Recall/Lines             the lines of a text, and the searches of the Go library
--   Recall/Sections          replaceMarkdownSection, ApplyMarkdownPatch
--   Recall/Facts             UpdateMarkdownFacts
--   Recall/Diffs             UnifiedDiff, truncateUTF8 (service.go)
-- for internal/auth/oauth.go:
--   Oauth/Texts              ValidPKCEValue, normalizeOAuthScope
--   Oauth/Urls               EquivalentResourceURI, ValidOAuthRedirectURI
--   Oauth/Grants             the tables, issueOAuthGrant and the revocation of grants
--   Oauth/Exchange           ExchangeAuthorizationCode
--   Oauth/Access             Refresh, AuthenticateAccess, RevokeUserGrants
--   Oauth/Clients            Client, ClientAllows, IssueAuthorizationCode
--   Oauth/Registration       RegisterClient
-- for internal/auth/web.go:
--   Web/Passwords            VerifyPassword
--   Web/Throttle             throttleRemaining, recordLoginFailure, clearLoginFailures, loginDelay
--   Web/Login                Login, createWebSession
-- The proofs on Continuation: Ensures (a logic for handlers that may fail), Evolution, Attempts,
-- Sound (what each handler keeps), Safety and ViewSafety (the handlers), Advance and Batch (the
-- transactions), History, Once, Expiry, Reads, Compaction, Replays, Retention. Run holds a run on
-- concrete inputs, and Examples and TableExamples the theorems at it. The proofs on Sessions:
-- Retries, Keys (histories of the operations), Revoked, Consumption, with Examples. Those on
-- Oauth: Replay, Rotation, Denied, Issued (from the issue to the exchange), Registered (from the
-- registration to the reads), Steps (the step relation), References, Enrolled, Redeemed and
-- Integrity (what all operations keep), with Examples, ClientExamples and Packing. Those on
-- Projects: Parsing (revisions as texts), Paths, Register (a project as a versioned register),
-- Steps (the step relation), Settled, Applied, Conflicts and Removed, with Examples. Those on
-- Recall: Operations, Retries and Advance (transitions), Replacement (sections), Kept (facts),
-- Patching and Limits (diffs), with Examples. The proof on Web is Blocked, with Examples.
--
-- How the code is modelled:
--   * A handler is a function from the database, the document and the time to the new document
--     and a result, or an error. An error of a transaction leaves the database as it was.
--     An operation of a session gives the tables that it leaves beside its answer, since there the
--     read after a write may fail and does not take the write back.
--   * A time that is stored as text is `none` for the empty text, and else its nanoseconds. The
--     format RFC3339Nano keeps nanoseconds, so formatting and parsing is taken as exact. Where SQL
--     compares such texts, Shared/Time gives the order of the texts, not of the times.
--   * States, phases and statuses that the source keeps as text are data types; an error is its
--     code, without its message. core.NewID and the random secrets take the next of a list of
--     supplied texts; when the list is empty, the random source fails.
--   * What lies outside the repository (the limits and the message of the protocol package,
--     SHA-256, the JSON encoding, the check of a source provenance) is a record of parameters,
--     Continuation/Types.Protocol, Sessions/Binding.Provenances, Oauth/Urls.Encodings (which also
--     holds what the code takes from net/url), Web/Passwords.WebLibrary,
--     Projects/Rollout.PermissionRules and Recall/Lifecycle.LifecycleCodec. In Oauth, that JSON
--     decodes to what it encoded is a hypothesis of the theorem that needs it. In Recall/Lifecycle
--     a record that was written is read back as it was: a file holds the record, not its text.
--   * An outcome stored as JSON is kept as the outcome; '{}' is `none`.
--   * A read that finds something expired is made again as a write; the database of that write
--     is another one, since other writers may come in between.
--   * The edits work on the characters of a text where the source works on its bytes; texts are
--     valid UTF-8. A regular expression is a function on the characters of a line.
--   * An int and an int64 are bounded in two places: a revision is parsed up to 2^63 - 1, and the
--     revision of a lifecycle record wraps around. The other counters are natural numbers without
--     a bound: revisions that SQL raises by one, the generation of a controller, the failures of
--     a continuation and those of a login. Each is raised by one at a time.
--   * INSERT … ON CONFLICT(id) DO UPDATE tests the named key first, as SQLite does: a row of that
--     id is updated, and the other keys are tested for a new row only.
--   * The loops are structural recursion on the lists that the source ranges over. The one fuel is
--     that of the decimal print of n (Shared/Decimal), n + 1, which is more than its digits.
--
-- Not modelled: the columns last_error; QueryLifecycle and its scores, and the rest of
-- internal/recall (search, embeddings, cards, migration); web sessions after the login,
-- passwords and MCP tokens (internal/auth); HTTP, MCP and the web pages (internal/httpx,
-- internal/mcpresult); the other stores (internal/privatenotes, internal/settings); node
-- connections (internal/agentdock); start-up; SQLite itself, and its foreign keys but for those
-- of Oauth and those that cascade in Projects; cancellation of a context.
mod Shared
pub mod Continuation
pub mod Sessions
pub mod Oauth
pub mod Web
pub mod Projects
pub mod Recall
