-- ===== src/Gang/Tests.antt =====
-- Task groups over whole quantities, and the theorem on their ask.
use yunikorn_k8shim.Prelude.{ℕ, ◌≤◌, ◌≡◌, refl, Option, none, some, List, [], ◌∷◌, String, inl}
use yunikorn_k8shim.Prelude.Dict.{lookup, insert}
use yunikorn_k8shim.Prelude.Int64.{mul_int64, add_int64, sub_int64, gt_int64}
use yunikorn_k8shim.Resource.{entries}
use yunikorn_k8shim.Resource.Sum.{quantity}
use yunikorn_k8shim.Gang.Defs.{
  TaskGroup, max_int64, get_task_groups, check_task_groups, check_task_group,
  validate_task_group_resources, check_resources, check_resource, int64_of, set_task_groups,
  collision,
}
use yunikorn_k8shim.Gang.Ask.{groups_ask, get_task_groups-ask}
use yunikorn_k8shim.Gang.Sample.{whole}

abbrev workers : TaskGroup ℕ
workers = record {
  name = "workers";
  min_member = 3;
  min_resource = some (("cpu", 2) ∷ ("memory", 500) ∷ []);
}

abbrev driver : TaskGroup ℕ
driver = record { name = "driver"; min_member = 1; min_resource = some (("cpu", 1) ∷ []) }

abbrev clash : TaskGroup ℕ
clash = record {
  name = "clash";
  min_member = 1;
  min_resource = some (("cpu", 1) ∷ ("vcore", 1) ∷ []);
}

abbrev unmarshal : String → Option (List (TaskGroup ℕ))
unmarshal _ = some (workers ∷ driver ∷ [])

clash_is_rejected : get_task_groups (λ _. some (clash ∷ [])) "groups" ≡ inl collision
unfolding get_task_groups check_task_groups check_task_group validate_task_group_resources
    check_resources check_resource int64_of lookup insert mul_int64 add_int64 sub_int64 gt_int64
clash_is_rejected = refl

get_task_groups-ask_example :
    (quantity "vcore" (entries (set_task_groups (workers ∷ driver ∷ []) none))
      ≡ groups_ask (workers ∷ driver ∷ []) "vcore")
    × (groups_ask (workers ∷ driver ∷ []) "vcore" ≤ max_int64)
unfolding get_task_groups check_task_groups check_task_group validate_task_group_resources
    check_resources check_resource int64_of lookup insert mul_int64 add_int64 sub_int64 gt_int64
get_task_groups-ask_example =
    get_task_groups-ask unmarshal "groups" (workers ∷ driver ∷ []) refl "vcore"
