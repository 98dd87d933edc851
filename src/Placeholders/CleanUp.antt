-- ===== src/Placeholders/CleanUp.antt =====
-- What becomes of the pods that could not be deleted: cleanUp and the rounds of
-- cleanOrphanPlaceholders.
use yunikorn_k8shim.Prelude.{
  String, ◌≡◌, refl, Bool, true, false, if◌then◌else◌, Option, none, some, List, [], ◌∷◌, ◌==◌, any,
  arith, eq_iff, ap, ◌∙◌,
}
use yunikorn_k8shim.Prelude.Dict.{lookup, delete, lookup-insert, lookup-delete}
use yunikorn_k8shim.Prelude.Unique.{Unique, insert-Unique}
use yunikorn_k8shim.Pod.{Pod}
use yunikorn_k8shim.Task.{Task}
use yunikorn_k8shim.Application.{Application}
use yunikorn_k8shim.Placeholders.Defs.{
  DeleteResult, deleted, not_found, delete_error, OrphanPods, get_placeholder_tasks, clean_up_tasks,
  clean_up, clean_orphans, keep_failed, drop_deleted, clean_orphan_placeholders,
}

abbrev pub is_deleted : DeleteResult → Bool
is_deleted deleted = true
is_deleted not_found = false
is_deleted delete_error = false

abbrev pub is_error : DeleteResult → Bool
is_error delete_error = true
is_error deleted = false
is_error not_found = false

-- The rounds of the manager's goroutine, each with what the client answers then.
unfoldable pub clean_rounds : List (Pod → DeleteResult) → OrphanPods → OrphanPods
clean_rounds [] orphans = orphans
clean_rounds (c ∷ cs) orphans = clean_rounds cs (clean_orphan_placeholders c orphans)

-- The pod of the last of the tasks with this ID whose Delete failed.
unfoldable pub failed_pod : (Pod → DeleteResult) → String → List Task → Option Pod → Option Pod
failed_pod client k [] o = o
failed_pod client k (t ∷ ts) o =
    failed_pod client k ts
      (if t.task_id == k then (if is_error (client t.pod) then some t.pod else o) else o)

-- An orphan with this pod after the rounds: gone as soon as one Delete succeeds.
abbrev pub retried : List (Pod → DeleteResult) → Option Pod → Option Pod
retried cs none = none
retried cs (some pod) = if any (λ c. is_deleted (c pod)) cs then none else some pod

delete-Unique : (k : String) (m : OrphanPods) → Unique m → Unique (delete k m)
unfolding delete
delete-Unique k [] u = u
delete-Unique k ((j, v) ∷ m) u = ground (arith, delete-Unique k m, lookup-delete k j m)

lookup-keep_failed :
    (r : DeleteResult) (k : String) (t : Task) (m : OrphanPods)
    → lookup k (keep_failed r t m)
      ≡ (if t.task_id == k then (if is_error r then some t.pod else lookup k m) else lookup k m)
unfolding keep_failed
lookup-keep_failed deleted k t m = ground arith
lookup-keep_failed not_found k t m = ground arith
lookup-keep_failed delete_error k t m = lookup-insert t.task_id t.pod k m

lookup-drop_deleted :
    (r : DeleteResult) (k j : String) (m : OrphanPods)
    → lookup k (drop_deleted r j m)
      ≡ (if j == k then (if is_deleted r then none else lookup k m) else lookup k m)
unfolding drop_deleted
lookup-drop_deleted deleted k j m = lookup-delete j k m
lookup-drop_deleted not_found k j m = ground arith
lookup-drop_deleted delete_error k j m = ground arith

lookup-clean_up_tasks :
    (client : Pod → DeleteResult) (k : String) (ts : List Task) (orphans : OrphanPods)
    → lookup k (clean_up_tasks client ts orphans) ≡ failed_pod client k ts (lookup k orphans)
unfolding clean_up_tasks failed_pod
lookup-clean_up_tasks client k [] orphans = refl
lookup-clean_up_tasks client k (t ∷ ts) orphans =
    lookup-clean_up_tasks client k ts (keep_failed (client t.pod) t orphans)
    ∙ ap (failed_pod client k ts) (lookup-keep_failed (client t.pod) k t orphans)

lookup-clean_orphans :
    (client : Pod → DeleteResult) (k : String) (m orphans : OrphanPods)
    → Unique m
    → lookup k (clean_orphans client m orphans) ≡ (elim (lookup k m) [
      | none ↦ lookup k orphans
      | some pod ↦ if is_deleted (client pod) then none else lookup k orphans
    ])
unfolding clean_orphans lookup
lookup-clean_orphans client k [] orphans u = refl
lookup-clean_orphans client k ((j, p) ∷ m) orphans u = ground (
  arith,
  lookup-clean_orphans client k m (drop_deleted (client p) j orphans) u.1,
  lookup-drop_deleted (client p) k j orphans,
  eq_iff j k,
)

drop_deleted-Unique :
    (r : DeleteResult) (j : String) (m : OrphanPods) → Unique m → Unique (drop_deleted r j m)
unfolding drop_deleted
drop_deleted-Unique deleted j m u = delete-Unique j m u
drop_deleted-Unique not_found j m u = u
drop_deleted-Unique delete_error j m u = u

clean_orphans-Unique :
    (client : Pod → DeleteResult) (m orphans : OrphanPods)
    → Unique orphans
    → Unique (clean_orphans client m orphans)
unfolding clean_orphans
clean_orphans-Unique client [] orphans u = u
clean_orphans-Unique client ((j, p) ∷ m) orphans u =
    clean_orphans-Unique client m (drop_deleted (client p) j orphans)
      (drop_deleted-Unique (client p) j orphans u)

keep_failed-Unique :
    (r : DeleteResult) (t : Task) (m : OrphanPods) → Unique m → Unique (keep_failed r t m)
unfolding keep_failed
keep_failed-Unique deleted t m u = u
keep_failed-Unique not_found t m u = u
keep_failed-Unique delete_error t m u = insert-Unique t.task_id t.pod m u

clean_up_tasks-Unique :
    (client : Pod → DeleteResult) (ts : List Task) (orphans : OrphanPods)
    → Unique orphans
    → Unique (clean_up_tasks client ts orphans)
unfolding clean_up_tasks
clean_up_tasks-Unique client [] orphans u = u
clean_up_tasks-Unique client (t ∷ ts) orphans u =
    clean_up_tasks-Unique client ts (keep_failed (client t.pod) t orphans)
      (keep_failed-Unique (client t.pod) t orphans u)

lookup-clean_rounds :
    (cs : List (Pod → DeleteResult)) (k : String) (orphans : OrphanPods)
    → Unique orphans
    → lookup k (clean_rounds cs orphans) ≡ retried cs (lookup k orphans)
unfolding clean_rounds clean_orphan_placeholders
lookup-clean_rounds [] k orphans u = ground arith
lookup-clean_rounds (c ∷ cs) k orphans u = ground (
  arith,
  lookup-clean_rounds cs k (clean_orphans c orphans orphans)
      (clean_orphans-Unique c orphans orphans u),
  lookup-clean_orphans c k orphans orphans u,
)

-- After cleanUp and any number of rounds of cleanOrphanPlaceholders, whatever the client answers:
-- the orphan pods are those that were there, or that Delete failed on in cleanUp with another
-- error than "not found", each until a Delete of it succeeds in one of the rounds. No other pod is
-- one, and none is given up before. Each task ID had one orphan at most.
pub clean_rounds-clean_up :
    (client : Pod → DeleteResult) (cs : List (Pod → DeleteResult)) (app : Application)
    (orphans : OrphanPods) (k : String)
    → Unique orphans
    → lookup k (clean_rounds cs (clean_up client app orphans))
      ≡ retried cs (failed_pod client k (get_placeholder_tasks app.task_map) (lookup k orphans))
unfolding clean_up
clean_rounds-clean_up client cs app orphans k u =
    lookup-clean_rounds cs k (clean_up_tasks client (get_placeholder_tasks app.task_map) orphans)
      (clean_up_tasks-Unique client (get_placeholder_tasks app.task_map) orphans u)
    ∙ ap (retried cs) (lookup-clean_up_tasks client k (get_placeholder_tasks app.task_map) orphans)
