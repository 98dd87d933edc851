-- ===== src/Admission/Caches.antt =====
-- The caches of pkg/admission/namespace_cache.go and pkg/admission/priority_class_cache.go.
use Prim.Native.String.{◌++◌}
use yunikorn_k8shim.Prelude.{String, Bool, true, not, ◌==◌, if◌then◌else◌, none, some}
use yunikorn_k8shim.Prelude.Dict.{Dict, lookup, insert, delete}
use yunikorn_k8shim.Context.Metadata.{Env}

pub data TriState : Type 0 where
  tri_unset tri_false tri_true : TriState

pub record NsFlags : Type 0 where
  pub enable_yunikorn : TriState
  pub generate_app_id : TriState

-- A v1.Namespace or a PriorityClass, as the caches read it
pub record Annotated : Type 0 where
  pub name : String
  pub annotations : Dict String

abbrev pub NamespaceCache : Type 0
NamespaceCache = Dict NsFlags

abbrev pub PriorityClassCache : Type 0
PriorityClassCache = Dict Bool

-- enableYuniKorn and generateAppID of the cache
unfoldable pub enable_yunikorn_of : NamespaceCache → String → TriState
enable_yunikorn_of c name = elim (lookup name c) [
  | none ↦ tri_unset
  | some flags ↦ flags.enable_yunikorn
]

unfoldable pub generate_app_id_of : NamespaceCache → String → TriState
generate_app_id_of c name = elim (lookup name c) [
  | none ↦ tri_unset
  | some flags ↦ flags.generate_app_id
]

-- A key in the domain of YuniKorn
abbrev pub domain_key : {Q : Type 0} → Env Q → String → String
domain_key env key = env.domain_yunikorn ++ key

-- getAnnotationValue
unfoldable pub get_annotation_value : Dict String → String → TriState
get_annotation_value m name = elim (lookup name m) [
  | none ↦ tri_unset
  | some v ↦ if v == "true" then tri_true else tri_false
]

-- getAnnotationBoolean
unfoldable pub get_annotation_boolean : Dict String → String → Bool
get_annotation_boolean m name = elim (lookup name m) [ none ↦ true | some v ↦ not (v == "false") ]

-- isPreemptSelfAllowed
unfoldable pub is_preempt_self_allowed : PriorityClassCache → String → Bool
is_preempt_self_allowed c name = elim (lookup name c) [ none ↦ true | some value ↦ value ]

module _ {Q : Type 0} (env : Env Q) where
  -- getAnnotationValues, for a namespace that is not nil
  unfoldable pub get_annotation_values : Annotated → NsFlags
  get_annotation_values ns = record {
    enable_yunikorn =
        get_annotation_value ns.annotations (env.domain_yunikorn ++ "namespace.enableYuniKorn");
    generate_app_id =
        get_annotation_value ns.annotations (env.domain_yunikorn ++ "namespace.generateAppId");
  }

  -- OnAdd and OnUpdate of namespaceUpdateHandler, for an object that is a namespace
  unfoldable pub on_add_namespace : Annotated → NamespaceCache → NamespaceCache
  on_add_namespace ns c = insert ns.name (get_annotation_values ns) c

  -- OnAdd and OnUpdate of priorityClassUpdateHandler, for an object that is a priority class
  unfoldable pub on_add_priority_class : Annotated → PriorityClassCache → PriorityClassCache
  on_add_priority_class pc c =
      insert pc.name
        (get_annotation_boolean pc.annotations (env.domain_yunikorn ++ "allow-preemption")) c

-- OnDelete of namespaceUpdateHandler
unfoldable pub on_delete_namespace : Annotated → NamespaceCache → NamespaceCache
on_delete_namespace ns c = delete ns.name c

-- OnDelete of priorityClassUpdateHandler
unfoldable pub on_delete_priority_class : Annotated → PriorityClassCache → PriorityClassCache
on_delete_priority_class pc c = delete pc.name c
