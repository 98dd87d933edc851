-- ===== src/Prelude/Unique.antt =====
-- Dictionaries in which every key stands once, as it does in a Go map, and their loops.
use Prim.Native.String.{String}
use mathlib.Core.Path.{◌≡◌, refl, sym, subst}
use mathlib.Core.Bool.{Bool, true, false}
use yunikorn_k8shim.Prelude.Tests.{if◌then◌else◌}
use yunikorn_k8shim.Prelude.Lists.{any}
use mathlib.Core.Option.{Option, none, some}
use mathlib.Core.List.{[], ◌∷◌}
use native.Mathlib.Omega.{arith}
use text.Mathlib.TextEquality.{eq_iff}
use yunikorn_k8shim.Prelude.Dict.{Dict, lookup, insert, lookup-insert}

module _ {ℓ} {V : Type ℓ} where
  abbrev pub Unique : Dict V → Type ℓ
  Unique [] = Unit
  Unique ((k, v) ∷ m) = (lookup k m ≡ none) × Unique m

  pub insert-Unique : (k : String) (v : V) (m : Dict V) → Unique m → Unique (insert k v m)
  unfolding insert
  insert-Unique k v [] h = (unfold lookup in refl, tt)
  insert-Unique k v ((j, w) ∷ m) h =
      ground (arith, insert-Unique k v m, lookup-insert k v j m, eq_iff j k, eq_iff k j)

  pub Unique-of_eq : {m : Dict V} (m' : Dict V) → m ≡ m' → Unique m' → Unique m
  Unique-of_eq m' e = subst Unique (sym e)

  pub if-Unique : (b : Bool) (m m' : Dict V) → Unique m → Unique m' → Unique (if b then m else m')
  if-Unique true m m' u v = u
  if-Unique false m m' u v = v

  -- for k, v := range m { acc[k] = v }
  unfoldable pub copy_into : Dict V → Dict V → Dict V
  copy_into [] acc = acc
  copy_into ((k, v) ∷ m) acc = copy_into m (insert k v acc)

  pub copy_into-Unique : (m acc : Dict V) → Unique acc → Unique (copy_into m acc)
  unfolding copy_into
  copy_into-Unique [] acc h = h
  copy_into-Unique ((k, v) ∷ m) acc h =
      copy_into-Unique m (insert k v acc) (insert-Unique k v acc h)

  abbrev pub or_else : Option V → Option V → Option V
  or_else none b = b
  or_else (some v) b = some v

  pub lookup-copy_into :
      (k : String) (m acc : Dict V)
      → Unique m
      → lookup k (copy_into m acc) ≡ or_else (lookup k m) (lookup k acc)
  unfolding copy_into lookup
  lookup-copy_into k [] acc h = refl
  lookup-copy_into k ((j, v) ∷ m) acc h =
      ground (arith, lookup-copy_into k m (insert j v acc), lookup-insert j v k acc, eq_iff j k)

  -- A test that no entry passes, told by the entries.
  pub any-lookup :
      (p : V → Bool) (k : String) (v : V) (d : Dict V)
      → any (λ (_, w). p w) d ≡ false
      → lookup k d ≡ some v
      → p v ≡ false
  unfolding lookup
  any-lookup p k v [] h e = absurd (cc)
  any-lookup p k v ((j, w) ∷ d) h e = ground (arith, any-lookup p k v d, eq_iff j k)

  pub lookup-any :
      (p : V → Bool) (d : Dict V)
      → Unique d
      → ((k : String) (v : V) → lookup k d ≡ some v → p v ≡ false)
      → any (λ (_, w). p w) d ≡ false
  unfolding lookup
  lookup-any p [] u h = refl
  lookup-any p ((j, w) ∷ d) u h = ground (
    arith,
    h j w,
    eq_iff j j,
    lookup-any p d u.1 (λ k v e. h k v (ground (arith, eq_iff j k, u.0))),
  )
