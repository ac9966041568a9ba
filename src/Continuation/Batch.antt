-- ===== src/Continuation/Batch.antt =====
-- RecordCommandOutcomes, under the relation Advance.
use nexusdock.Shared.{All, ℕ, refl, String, List, [], ◌∷◌, Option, none, some}
use nexusdock.Continuation.Types.{Protocol, CommandOutcome, ExecutionContext}
use nexusdock.Continuation.Store.{Database, Receipt, Eligibility}
use nexusdock.Continuation.Receipts.{
  insert_receipt, merge_receipt, record_eligible, record_orphan, store_new, store_outcome,
  record_outcome, is_terminal, record_each, expire_unawaited_receipts, record_command_outcomes,
}
use nexusdock.Continuation.Ensures.{
  Ensures, returns, returned, weaken, refuse, require, branch, chain,
}
use nexusdock.Continuation.Sound.{Sound-trans, expire-Sound, merge-SoundIds}
use nexusdock.Continuation.Advance.{
  Advance, Advance-refl, Advance-trans, Advance-same, load-Loaded, save-Advance,
}

insert-Advance :
    {N : String → Type 0} (db : Database) (node : String) (o : CommandOutcome)
    (e : ExecutionContext) (hash : String) (now : ℕ) (kind : Eligibility)
    (stored : Option CommandOutcome)
    → Ensures (Advance N db) (insert_receipt db node o e hash now kind stored)
unfolding insert_receipt
insert-Advance db node o e hash now kind stored =
    refuse _ _ _ λ fresh. returns (Advance-same db _ refl)

-- The tables, and the supplied ids that are left: they are allowed too.
abbrev AdvanceIds : (String → Type 0) → Database → Database × List String → Type 0
AdvanceIds N db r = Advance N db r.0 × All N r.1

merge_receipt-AdvanceIds :
    (N : String → Type 0) (p : Protocol) (db : Database) (ws : String) (o : CommandOutcome)
    (now : ℕ) (ids : List String)
    → All N ids
    → Ensures (AdvanceIds N db) (merge_receipt p db ws o now ids)
unfolding merge_receipt
merge_receipt-AdvanceIds N p db ws o now ids a = require _ _ _ λ session s. chain _ _ λ d e.
    chain _ _ λ m f.
      let merged = returned (merge-SoundIds N p _ o now ids a) f in
      returns (
        save-Advance db ws d m.0 now (returned (load-Loaded db session.owner_key ws) e)
            (Sound-trans (expire-Sound d now) merged.0),
        merged.1,
      )

store_new-AdvanceIds :
    (N : String → Type 0) (p : Protocol) (db : Database) (node : String) (o : CommandOutcome)
    (hash : String) (now : ℕ) (ids : List String) (bound : Option (ExecutionContext × String))
    → All N ids
    → Ensures (AdvanceIds N db) (store_new p db node o hash now ids bound)
unfolding store_new record_eligible record_orphan
store_new-AdvanceIds N p db node o hash now ids (some e) a = chain _ _ λ db' f.
    let first = returned (insert-Advance db node o e.0 hash now _ _) f in
    weaken (λ r g. (Advance-trans first g.0, g.1))
      (merge_receipt-AdvanceIds N p db' e.0.work_session_id o now ids a)
store_new-AdvanceIds N p db node o hash now ids none a =
    chain _ _
      λ db' f. returns (returned (insert-Advance db node o o.execution_context hash now _ _) f, a)

store-AdvanceIds :
    (N : String → Type 0) (p : Protocol) (db : Database) (node : String) (o : CommandOutcome)
    (hash : String) (now : ℕ) (ids : List String) (bound : Option (ExecutionContext × String))
    (r : Option Receipt)
    → All N ids
    → Ensures (AdvanceIds N db) (store_outcome p db node o hash now ids bound r)
unfolding store_outcome
store-AdvanceIds N p db node o hash now ids bound (some r) a =
    refuse _ _ _ λ same. returns (Advance-refl db, a)
store-AdvanceIds N p db node o hash now ids bound none a =
    store_new-AdvanceIds N p db node o hash now ids bound a

record_outcome-AdvanceIds :
    (N : String → Type 0) (p : Protocol) (db : Database) (node : String) (o : CommandOutcome)
    (now : ℕ) (ids : List String)
    → All N ids
    → Ensures (AdvanceIds N db) (record_outcome p db node o now ids)
unfolding record_outcome
record_outcome-AdvanceIds N p db node o now ids a = refuse _ _ _ λ size. refuse _ _ _ λ named.
    chain _ _ λ bound b.
      refuse _ _ _ λ ours. require _ _ _ λ raw e. store-AdvanceIds N p db node _ _ now ids bound _ a

record_each-Advance :
    (N : String → Type 0) (p : Protocol) (db : Database) (node : String)
    (os : List (CommandOutcome × ℕ)) (ids : List String)
    → All N ids
    → Ensures (λ r. Advance N db r.0) (record_each p db node os ids)
unfolding record_each
record_each-Advance N p db node [] ids a = returns (Advance-refl db)
record_each-Advance N p db node ((o, now) ∷ os) ids a =
    branch (is_terminal o.state) _ _
      (λ t. chain _ _ λ r e. chain _ _ λ rest f.
        let first = returned (record_outcome-AdvanceIds N p db node o now ids a) e in
        returns
          (Advance-trans first.0 (returned (record_each-Advance N p r.0 node os r.1 first.1) f)))
      (λ t. record_each-Advance N p db node os ids a)

pub record-Advance :
    (N : String → Type 0) (p : Protocol) (db : Database) (node : String)
    (os : List (CommandOutcome × ℕ)) (now : ℕ) (ids : List String)
    → All N ids
    → Ensures (λ r. Advance N db r.0) (record_command_outcomes p db node os now ids)
unfolding record_command_outcomes expire_unawaited_receipts
record-Advance N p db node os now ids a = refuse _ _ _ λ bounded. require _ _ _ λ size e.
    refuse _ _ _ λ small. chain _ _ λ r f. returns (
      Advance-trans (returned (record_each-Advance N p db node os ids a) f)
        (Advance-same r.0 _ refl))
