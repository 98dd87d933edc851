-- ===== src/Placeholders/Defs.antt =====
-- The placeholder manager, pkg/cache/placeholder_manager.go. The answers of the Kubernetes client
-- are arguments; the pod of a placeholder stands by the name of its task group.
use yunikorn_k8shim.Prelude.{
  ℕ, zero, suc, ◌+◌, ◌-◌, ◌%◌, String, Bool, true, false, if◌then◌else◌, Option, none, some, List,
  [], ◌∷◌, ◌++◌, length,
}
use yunikorn_k8shim.Prelude.Dict.{Dict, lookup, insert, delete}
use yunikorn_k8shim.Pod.{Pod}
use yunikorn_k8shim.Task.{Task}
use yunikorn_k8shim.Application.{Application, TaskGroup}

-- getPlaceHolderTasks
unfoldable pub get_placeholder_tasks : Dict Task → List Task
get_placeholder_tasks [] = []
get_placeholder_tasks ((_, t) ∷ m) =
    let rest = get_placeholder_tasks m in if t.placeholder then t ∷ rest else rest

-- m[k] on a missing key, and on one that is there
abbrev pub or_zero : Option ℕ → ℕ
or_zero none = 0
or_zero (some n) = n

-- The first loop of createAppPlaceholders; a count is an int32.
unfoldable pub tg_counts : List Task → Dict ℕ → Dict ℕ
tg_counts [] counts = counts
tg_counts (t ∷ ts) counts =
    tg_counts ts (
      insert t.task_group_name ((or_zero (lookup t.task_group_name counts) + 1) % 4294967296)
        counts)

-- The inner loop: `n` placeholders of the group are missing. `create` says whether the client's
-- Create succeeds, by the number of placeholders that were created before. The result has the
-- placeholders that were created, and whether an error was returned.
unfoldable pub create_group : (ℕ → Bool) → String → ℕ → List String → List String × Bool
create_group create name zero created = (created, false)
create_group create name (suc n) created =
    let rest = create_group create name n (created ++ name ∷ []) in
    if create (length created) then rest else (created, true)

-- An int32 in the order of the signed values.
abbrev pub shifted32 : ℕ → ℕ
shifted32 v = (v + 2147483648) % 4294967296

-- The members that are missing: how often `for i := count; i < tg.MinMember; i++` runs.
unfoldable pub missing_members : TaskGroup → Dict ℕ → ℕ
missing_members tg counts = shifted32 tg.min_member - shifted32 (or_zero (lookup tg.name counts))

-- The second loop of createAppPlaceholders.
unfoldable pub create_groups :
    (ℕ → Bool) → List TaskGroup → Dict ℕ → List String → List String × Bool
create_groups create [] counts created = (created, false)
create_groups create (tg ∷ tgs) counts created =
    let (created₁, failed) = create_group create tg.name (missing_members tg counts) created in
    if failed then (created₁, true) else create_groups create tgs counts created₁

-- createAppPlaceholders
unfoldable pub create_app_placeholders : (ℕ → Bool) → Application → List String × Bool
create_app_placeholders create app =
    create_groups create app.task_groups (tg_counts (get_placeholder_tasks app.task_map) []) []

-- What the client's Delete returns: no error, an error that says "not found", or another.
pub data DeleteResult : Type 0 where
  deleted not_found delete_error : DeleteResult

-- The orphan pods of the manager, by task ID.
abbrev pub OrphanPods : Type 0
OrphanPods = Dict Pod

-- One round of cleanUp, with what Delete returned.
unfoldable pub keep_failed : DeleteResult → Task → OrphanPods → OrphanPods
keep_failed deleted t orphans = orphans
keep_failed not_found t orphans = orphans
keep_failed delete_error t orphans = insert t.task_id t.pod orphans

-- The loop of cleanUp.
unfoldable pub clean_up_tasks : (Pod → DeleteResult) → List Task → OrphanPods → OrphanPods
clean_up_tasks client [] orphans = orphans
clean_up_tasks client (t ∷ ts) orphans =
    clean_up_tasks client ts (keep_failed (client t.pod) t orphans)

-- cleanUp
unfoldable pub clean_up : (Pod → DeleteResult) → Application → OrphanPods → OrphanPods
clean_up client app orphans = clean_up_tasks client (get_placeholder_tasks app.task_map) orphans

-- One round of cleanOrphanPlaceholders, with what Delete returned.
unfoldable pub drop_deleted : DeleteResult → String → OrphanPods → OrphanPods
drop_deleted deleted task_id orphans = delete task_id orphans
drop_deleted not_found task_id orphans = orphans
drop_deleted delete_error task_id orphans = orphans

-- The loop of cleanOrphanPlaceholders, over a copy of the map that it deletes from.
unfoldable pub clean_orphans : (Pod → DeleteResult) → OrphanPods → OrphanPods → OrphanPods
clean_orphans client [] orphans = orphans
clean_orphans client ((task_id, pod) ∷ m) orphans =
    clean_orphans client m (drop_deleted (client pod) task_id orphans)

-- cleanOrphanPlaceholders
unfoldable pub clean_orphan_placeholders : (Pod → DeleteResult) → OrphanPods → OrphanPods
clean_orphan_placeholders client orphans = clean_orphans client orphans orphans
