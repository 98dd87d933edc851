-- ===== src/Placeholders/Tests.antt =====
-- Placeholders of the sample gang, and the theorems at it.
use yunikorn_k8shim.Prelude.{ltb, String, ◌≡◌, refl, true, List, [], ◌∷◌, ◌==◌, count, arith}
use yunikorn_k8shim.Prelude.Dict.{lookup, insert}
use yunikorn_k8shim.Pod.{Pod}
use yunikorn_k8shim.Application.{Application}
use yunikorn_k8shim.Application.Sample.{gang}
use yunikorn_k8shim.Placeholders.Defs.{
  DeleteResult, deleted, not_found, delete_error, get_placeholder_tasks, create_app_placeholders,
  clean_up, create_groups, create_group, tg_counts, missing_members,
}
use yunikorn_k8shim.Placeholders.Create.{Outcome, shortfall, in_group, create_app_placeholders_lem}
use yunikorn_k8shim.Placeholders.CleanUp.{clean_rounds, retried, failed_pod, clean_rounds-clean_up}

-- Four members are wanted of the gang, and there are placeholders for two.
abbrev larger : Application
larger = record gang { task_groups = (record { name = "workers"; min_member = 4 }) ∷ [] }

-- The second Create fails.
one_is_created : create_app_placeholders (λ n. ltb n 1) larger ≡ ("workers" ∷ [], true)
unfolding create_app_placeholders create_groups create_group tg_counts missing_members
    get_placeholder_tasks lookup insert
one_is_created = refl

create_app_placeholders_lem_example :
    (wanted : List String) × ((k : String)
      → count (λ s. s == k) wanted
        ≡ shortfall larger.task_groups k (in_group k (get_placeholder_tasks larger.task_map)))
    × Outcome (λ n. ltb n 1) [] wanted (create_app_placeholders (λ n. ltb n 1) larger)
unfolding get_placeholder_tasks
create_app_placeholders_lem_example =
    create_app_placeholders_lem (λ n. ltb n 1) larger (omega arith, tt) (omega arith)

-- The first Delete fails, the second finds nothing, the third succeeds.
abbrev answers : List (Pod → DeleteResult)
answers = (λ _. not_found) ∷ (λ _. deleted) ∷ []

clean_rounds-clean_up_example :
    lookup "uid-1" (clean_rounds answers (clean_up (λ _. delete_error) larger []))
    ≡ retried answers (
        failed_pod
          (λ _. delete_error)
          "uid-1"
          (get_placeholder_tasks larger.task_map)
          (lookup "uid-1" []))
clean_rounds-clean_up_example =
    clean_rounds-clean_up (λ _. delete_error) answers larger [] "uid-1" tt
