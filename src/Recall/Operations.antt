-- ===== src/Recall/Operations.antt =====
-- lifecycle.go, the applied operations of a record: appendAppliedOperation,
-- findLifecycleOperation.
use nexusdock.Shared.{
  drop, length-drop, ℕ, zero, suc, ◌-◌, ◌≤◌, ◌≡◌, refl, str_eq_refl, ltb, List, [], ◌∷◌, ◌++◌, some,
  length, length-append, arith, Bool-cases, inl, inr,
}
use nexusdock.Recall.Records.{LifecycleOperation}
use nexusdock.Recall.Lifecycle.{
  max_applied_operation_ids, append_applied_operation, find_lifecycle_operation,
}

find-append :
    (values : List LifecycleOperation) (o : LifecycleOperation)
    → find_lifecycle_operation (values ++ o ∷ []) o.id ≡ some o
unfolding find_lifecycle_operation
find-append [] o = rw (str_eq_refl o.id) refl
find-append (x ∷ values) o = rw (find-append values o) refl

drop-append :
    (n : ℕ) (values : List LifecycleOperation) (o : LifecycleOperation)
    → n ≤ length values
    → drop n (values ++ o ∷ []) ≡ drop n values ++ o ∷ []
drop-append zero values o h = refl
drop-append (suc n) [] o h = absurd (omega (arith, h))
drop-append (suc n) (x ∷ values) o h = drop-append n values o (omega (arith, h))

-- The operation that was applied last is found.
pub find-append_applied_operation :
    (values : List LifecycleOperation) (o : LifecycleOperation)
    → find_lifecycle_operation (append_applied_operation values o) o.id ≡ some o
unfolding append_applied_operation
find-append_applied_operation values o =
    elim (Bool-cases (ltb max_applied_operation_ids (length (values ++ o ∷ [])))) [
      | inl e ↦
          let n = length (values ++ o ∷ []) - max_applied_operation_ids in
          rw (e, drop-append n values o (ground (arith, length-append values (o ∷ []))))
            (find-append (drop n values) o)
      | inr e ↦ rw e (find-append values o)
    ]

pub length-append_applied_operation :
    (values : List LifecycleOperation) (o : LifecycleOperation)
    → length (append_applied_operation values o) ≤ max_applied_operation_ids
unfolding append_applied_operation
length-append_applied_operation values o =
    elim (Bool-cases (ltb max_applied_operation_ids (length (values ++ o ∷ [])))) [
      | inl e ↦
          let n = length (values ++ o ∷ []) - max_applied_operation_ids in
          rw e (ground (arith, e, length-drop n (values ++ o ∷ []) (omega arith)))
      | inr e ↦ rw e (ground (arith, e))
    ]
