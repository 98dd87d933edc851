-- ===== src/Configuration/Maps.antt =====
-- Config maps and the one map that FlattenConfigMaps of pkg/conf/schedulerconf.go makes of them,
-- with what pkg/common/utils/utils.go reads of it for the core.
use Prim.Native.String.{◌++◌}
use yunikorn_k8shim.Prelude.{String, Bool, Option, none, some, List, [], ◌∷◌, if◌then◌else◌, member}
use yunikorn_k8shim.Prelude.Dict.{Dict, lookup, insert}
use yunikorn_k8shim.Prelude.Text.{trim_suffix, after_dot}
use yunikorn_k8shim.Prelude.Unique.{copy_into}

-- v1.ConfigMap; bytes are texts, and the maps are in the order in which they are ranged over.
pub record ConfigMap : Type 0 where
  pub name : String
  pub namespace : String
  pub text_data : Dict String
  pub binary_data : Dict String

-- strings.Split(key, "."), of which the last text is taken
unfoldable pub last_of_split : String → String
last_of_split key = elim (after_dot key) [ none ↦ key | some s ↦ s ]

-- strings.EqualFold(algo, "gz")
unfoldable pub is_gzip : String → Bool
is_gzip algo = member algo ("gz" ∷ "gZ" ∷ "Gz" ∷ "GZ" ∷ [])

-- strings.CutSuffix(key, suffix)
unfoldable pub cut_suffix : String → String → String
cut_suffix key suffix = elim (trim_suffix suffix key) [ none ↦ key | some s ↦ s ]

-- Decompress. The texts that gzip makes are an argument; none is an error of NewReader or ReadAll.
unfoldable pub decompress : (gunzip : String → Option String) (key value : String) → String × String
decompress gunzip key value =
    let algo = last_of_split key in
    let stripped = cut_suffix key ("." ++ algo) in
    if is_gzip algo
    then elim (gunzip value) [ none ↦ ("", "") | some text ↦ (stripped, text) ]
    else (stripped, "")

module _ (gunzip : String → Option String) where
  unfoldable pub decompress_into : Dict String → Dict String → Dict String
  decompress_into [] acc = acc
  decompress_into ((k, v) ∷ m) acc =
      let (key, text) = decompress gunzip k v in decompress_into m (insert key text acc)

  unfoldable pub flatten_into : List (Option ConfigMap) → Dict String → Dict String
  flatten_into [] acc = acc
  flatten_into (none ∷ ms) acc = flatten_into ms acc
  flatten_into (some m ∷ ms) acc =
      flatten_into ms (decompress_into m.binary_data (copy_into m.text_data acc))

  unfoldable pub flatten_config_maps : List (Option ConfigMap) → Dict String
  flatten_config_maps ms = flatten_into ms []

-- GetCoreSchedulerConfigFromConfigMap, for the policy group of the configuration
unfoldable pub get_core_scheduler_config_from_config_map : String → Dict String → String
get_core_scheduler_config_from_config_map policy_group config =
    elim (lookup (policy_group ++ ".yaml") config) [ none ↦ "" | some text ↦ text ]

-- GetExtraConfigFromConfigMap
unfoldable pub get_extra_config_from_config_map : Dict String → Dict String
get_extra_config_from_config_map [] = []
get_extra_config_from_config_map ((k, v) ∷ m) =
    let rest = get_extra_config_from_config_map m in
    elim (trim_suffix ".yaml" k) [ none ↦ (k, v) ∷ rest | some _ ↦ rest ]
