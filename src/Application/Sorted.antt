-- ===== src/Application/Sorted.antt =====
-- The list that getTasks makes of the tasks of an application.
use yunikorn_k8shim.Prelude.{
  ℕ, String, ◌≡◌, refl, Bool, true, false, not, ◌&&◌, Option, none, some, List, [], ◌∷◌, ◌==◌,
  is_empty, any, all, if◌then◌else◌, arith, eq_iff,
}
use yunikorn_k8shim.Prelude.Dict.{Dict, lookup}
use yunikorn_k8shim.Fsm.{same}
use yunikorn_k8shim.Events.{TaskState, TaskState-Names}
use yunikorn_k8shim.Task.{Task}
use yunikorn_k8shim.Application.Tasks.{IsKeyed}
use yunikorn_k8shim.Application.Schedule.{comes_before, insert_sorted, get_tasks}

-- The task of a list that has an ID
abbrev pub find : String → List Task → Option Task
find k [] = none
find k (t ∷ ts) = if t.task_id == k then some t else find k ts

-- No ID stands twice.
abbrev pub Distinct : List Task → Type 0
Distinct [] = Unit
Distinct (t ∷ ts) = (find t.task_id ts ≡ none) × Distinct ts

if-Distinct :
    (b : Bool) (xs ys : List Task) → Distinct xs → Distinct ys → Distinct (if b then xs else ys)
if-Distinct true xs ys h k = h
if-Distinct false xs ys h k = k

abbrev pub in_state : TaskState → Option Task → Option Task
in_state s none = none
in_state s (some t) = if same t.sm s then some t else none

module _ (create_time : Task → ℕ) where
  find-insert_sorted :
      (k : String) (t : Task) (xs : List Task)
      → find t.task_id xs ≡ none
      → find k (insert_sorted create_time t xs) ≡ (if t.task_id == k then some t else find k xs)
  unfolding insert_sorted
  find-insert_sorted k t [] h = refl
  find-insert_sorted k t (x ∷ xs) h = ground (
    arith,
    find-insert_sorted k t xs,
    eq_iff x.task_id t.task_id,
    eq_iff x.task_id k,
    eq_iff t.task_id k,
  )

  insert_sorted-Distinct :
      (t : Task) (xs : List Task)
      → find t.task_id xs ≡ none
      → Distinct xs
      → Distinct (insert_sorted create_time t xs)
  unfolding insert_sorted
  insert_sorted-Distinct t [] h d = (refl, tt)
  insert_sorted-Distinct t (x ∷ xs) h d =
      let differ : (x.task_id == t.task_id) ≡ false = ground arith in
      if-Distinct (comes_before create_time t x) (t ∷ x ∷ xs) (x ∷ insert_sorted create_time t xs)
        (h, d)
        (
          ground (
            arith,
            find-insert_sorted x.task_id t xs,
            eq_iff x.task_id t.task_id,
            eq_iff t.task_id x.task_id,
          ),
          insert_sorted-Distinct t xs (ground arith) d.1,
        )

  all-insert_sorted :
      (p : Task → Bool) (t : Task) (xs : List Task)
      → all p (insert_sorted create_time t xs) ≡ (p t && all p xs)
  unfolding insert_sorted
  all-insert_sorted p t [] = refl
  all-insert_sorted p t (x ∷ xs) = ground (arith, all-insert_sorted p t xs)

  -- The tasks in a state, as a list without repetition that has each of them under its ID
  pub record Lists (s : TaskState) (m : Dict Task) (ts : List Task) : Type 0 where
    pub distinct : Distinct ts
    pub in_that_state : all (λ t. same t.sm s) ts ≡ true
    pub finds : (k : String) → find k ts ≡ in_state s (lookup k m)

  Lists-cons :
      (s : TaskState) (j : String) (t : Task) (m : Dict Task) (ts : List Task)
      → t.task_id ≡ j
      → lookup j m ≡ none
      → Lists s m ts
      → Lists s ((j, t) ∷ m) (if same t.sm s then insert_sorted create_time t ts else ts)
  unfolding lookup
  Lists-cons s j t m ts e u h =
      let fresh : find t.task_id ts ≡ none = ground (arith, h.finds t.task_id) in
      record {
        distinct =
            if-Distinct (same t.sm s) (insert_sorted create_time t ts) ts
              (insert_sorted-Distinct t ts fresh h.distinct) h.distinct;
        in_that_state = ground (arith, h.in_that_state, all-insert_sorted (λ t. same t.sm s) t ts);
        finds = λ k.
            ground (arith, h.finds k, find-insert_sorted k t ts, eq_iff j k, eq_iff t.task_id k);
      }

  pub get_tasks-Lists :
      (s : TaskState) (m : Dict Task) → IsKeyed m → Lists s m (get_tasks create_time s m)
  unfolding get_tasks
  get_tasks-Lists s [] h = record {
    distinct = tt;
    in_that_state = refl;
    finds = λ k. unfold lookup in refl;
  }
  get_tasks-Lists s ((j, t) ∷ m) h =
      Lists-cons s j t m (get_tasks create_time s m) (ground (arith, eq_iff t.task_id j)) h.0.0
        (get_tasks-Lists s m (h.0.1, ground arith))

  is_empty-insert_sorted :
      (t : Task) (xs : List Task) → is_empty (insert_sorted create_time t xs) ≡ false
  unfolding insert_sorted
  is_empty-insert_sorted t [] = refl
  is_empty-insert_sorted t (x ∷ xs) = ground arith

  -- Whether there is a task in a state
  pub is_empty-get_tasks :
      (s : TaskState) (m : Dict Task)
      → not (is_empty (get_tasks create_time s m)) ≡ any (λ (_, t). same t.sm s) m
  unfolding get_tasks
  is_empty-get_tasks s [] = refl
  is_empty-get_tasks s ((_, t) ∷ m) =
      ground (arith, is_empty-get_tasks s m, is_empty-insert_sorted t (get_tasks create_time s m))
