-- ===== src/Predicates/Tests.antt =====
-- The predicate manager on plugins that are simple, and its theorems at them.
use yunikorn_k8shim.Prelude.{
  ℕ, ltb, String, ◌≡◌, ◌↔◌, inr, refl, Bool, true, false, ◌&&◌, ◌||◌, Option, none, some, [], ◌∷◌,
  all, length, arith, ◌==◌, if◌then◌else◌,
}
use yunikorn_k8shim.Prelude.Dict.{lookup}
use yunikorn_k8shim.Pod.{Pod, pod_pending, pod_running}
use yunikorn_k8shim.SchedulerCache.Plain.{PlainInfo, plain_info, pod_on, node_named}
use yunikorn_k8shim.Predicates.Framework.{Framework, Plugin}
use yunikorn_k8shim.Predicates.Defs.{
  PredicateManager, new_predicate_manager, new_predicate_manager_internal, filter_plugins,
  add_plugins, run_pre_filter_plugins, pod_fits_node, run_filter_plugins, run_pre_filters,
}
use yunikorn_k8shim.Predicates.Fits.{eligible, clears, state_after, skipped, pod_fits_node_iff}

pub data Code : Type 0 where
  success error unschedulable unresolvable skip : Code

abbrev pub succeeds : Code → Bool
succeeds success = true
succeeds _ = false

abbrev pub skips : Code → Bool
skips skip = true
skips _ = false

abbrev pub rejects : Code → Bool
rejects unschedulable = true
rejects unresolvable = true
rejects _ = false

-- The nodes of a PreFilter result by a test on their names
abbrev pub both : Option (String → Bool) → Option (String → Bool) → Option (String → Bool)
both none b = b
both (some f) none = some f
both (some f) (some g) = some (λ n. f n && g n)

abbrev pub is_all : Option (String → Bool) → Bool
is_all none = true
is_all (some f) = false

abbrev pub has : String → Option (String → Bool) → Bool
has n none = false
has n (some f) = f n

pub both-allows :
    (n : String) (a b : Option (String → Bool))
    → (is_all (both a b) || has n (both a b)) ≡ ((is_all a || has n a) && (is_all b || has n b))
both-allows n none b = refl
both-allows n (some f) none = ground arith
both-allows n (some f) (some g) = refl

abbrev pub codes : Framework Code (String → Bool) ℕ
codes = record {
  nil_status = success;
  new_success = success;
  is_success = succeeds;
  is_skip = skips;
  is_rejected = rejects;
  message = λ c. "";
  as_status = λ t. error;
  new_unresolvable = λ t. unresolvable;
  new_error = λ t. error;
  merge = both;
  all_nodes = is_all;
  has_node = has;
  new_cycle_state = 0;
  running_pre_filter = λ p t. "";
  running_filter = λ p n t. "";
  nil_status-is_success = refl;
  new_success-is_success = refl;
  as_status-fails = λ t. refl;
  new_unresolvable-fails = λ t. refl;
  new_error-fails = λ t. refl;
  all_nodes-none = refl;
  merge-allows = both-allows;
}

-- A plugin that counts in the cycle state how many pods the node may hold, and asks for it
abbrev pub room : Plugin Code (String → Bool) ℕ PlainInfo
room = record {
  name = "NodeResourcesFit";
  as_pre_filter = some (λ c p ns. ((none, success), 2));
  as_filter = some (λ c p i. if ltb (length i.held) c then success else unschedulable);
}

-- A plugin that allows one node, and has no filter of its own for the pod
abbrev pub affinity : Plugin Code (String → Bool) ℕ PlainInfo
affinity = record {
  name = "NodeAffinity";
  as_pre_filter = some (λ c p ns. ((some (λ n. n == "n1"), skip), c));
  as_filter = some (λ c p i. unresolvable);
}

abbrev pub manager : PredicateManager Code (String → Bool) ℕ PlainInfo
manager = record {
  reservation_pre_filters = [];
  allocation_pre_filters =
      record { name = "NodeResourcesFit"; pre_filter = λ c p ns. ((none, success), 2) }
      ∷ record { name = "NodeAffinity"; pre_filter = λ c p ns. ((some (λ n. n == "n1"), skip), c) }
      ∷ [];
  reservation_filters = [];
  allocation_filters =
      record {
        name = "NodeResourcesFit";
        filter = λ c p i. if ltb (length i.held) c then success else unschedulable;
      }
      ∷ record { name = "NodeAffinity"; filter = λ c p i. unresolvable }
      ∷ [];
}

-- The manager is what is made of the two plugins.
made :
    (new_predicate_manager (room ∷ affinity ∷ [])).allocation_filters ≡ manager.allocation_filters
unfolding new_predicate_manager new_predicate_manager_internal filter_plugins add_plugins lookup
made = refl

abbrev crowded : PlainInfo
crowded = record {
  owner = some (node_named "n1");
  held = pod_on "first" "n1" pod_running ∷ pod_on "second" "n1" pod_running ∷ [];
}

abbrev extra : Pod
extra = pod_on "extra" "" pod_pending

pod_fits_node_iff_example :
    (pod_fits_node codes manager.allocation_pre_filters manager.allocation_filters extra
        (inr (crowded ∷ []))
        (node_named "n1")
        crowded
      ≡ none)
    ↔ ((eligible codes extra
            (crowded ∷ [])
            (node_named "n1")
            manager.allocation_pre_filters
            codes.new_cycle_state
          ≡ true)
        × (all
              (clears codes extra
                (state_after codes extra
                  (crowded ∷ [])
                  manager.allocation_pre_filters
                  codes.new_cycle_state)
                crowded
                (skipped codes extra
                  (crowded ∷ [])
                  manager.allocation_pre_filters
                  codes.new_cycle_state
                  []))
              manager.allocation_filters
            ≡ true))
pod_fits_node_iff_example =
    pod_fits_node_iff codes extra (crowded ∷ []) (node_named "n1") manager.allocation_pre_filters
      manager.allocation_filters crowded

-- The node has no room for the pod, and the other filter is skipped.
no_room :
    pod_fits_node codes manager.allocation_pre_filters manager.allocation_filters extra
      (inr (crowded ∷ []))
      (node_named "n1")
      crowded
    ≡ some ("NodeResourcesFit", "")
unfolding pod_fits_node run_pre_filter_plugins run_pre_filters run_filter_plugins
no_room = refl
