-- ===== src/Projects/Settled.antt =====
-- What an operation leaves: a rule for its answer with the tables.
use nexusdock.Continuation.Types.{Error, Result, err}
use nexusdock.Continuation.Ensures.{Ensures, returns, raises}
use nexusdock.Projects.Tables.{ProjectTables}
use nexusdock.Projects.Writes.{settle}

module _ {A : Type 0} (P : ProjectTables × Result A → Type 0) where
  pub settle-holds :
      (db : ProjectTables) (m : Result (ProjectTables × Result A))
      → ((e : Error) → P (db, err e))
      → Ensures P m
      → P (settle db m)
  unfolding settle
  settle-holds db _ k (returns h) = h
  settle-holds db _ k (raises {e}) = k e
