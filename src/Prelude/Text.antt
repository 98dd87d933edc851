-- ===== src/Prelude/Text.antt =====
-- Texts by their characters: truncation as fmt does it, suffixes, and when a text is empty.
use Prim.Native.Nat.{ℕ, zero, suc, ◌≤◌}
use Prim.Native.String.{String, [], ◌∷◌, count}
use mathlib.Core.Logic.{◌≢◌}
use mathlib.Core.Option.{Option, none, some}
use native.Mathlib.Omega.{arith}
use text.Mathlib.Text.{◌==◌}
use text.Mathlib.TextLemmas.{length-nil, length-cons}
use yunikorn_k8shim.Prelude.Tests.{if◌then◌else◌}

-- %.26s and the like: the first n characters
unfoldable pub truncate : ℕ → String → String
truncate n [] = []
truncate zero (c ∷ s) = []
truncate (suc n) (c ∷ s) = c ∷ truncate n s

-- strings.HasSuffix with strings.TrimSuffix: the text before the suffix, if it ends so
unfoldable pub trim_suffix : String → String → Option String
trim_suffix suffix [] = if suffix == "" then some "" else none
trim_suffix suffix (c ∷ s) =
    let rest = trim_suffix suffix s in
    if (c ∷ s) == suffix then some "" else elim rest [ none ↦ none | some t ↦ some (c ∷ t) ]

-- What comes after the last dot of a text, if it has one
unfoldable pub after_dot : String → Option String
after_dot [] = none
after_dot (c ∷ s) =
    let rest = after_dot s in
    elim rest [ none ↦ if (c ∷ []) == "." then some s else none | some t ↦ some t ]

pub count-truncate : (n : ℕ) (s : String) → count (truncate n s) ≤ n
unfolding truncate
count-truncate n [] = omega (arith, length-nil)
count-truncate zero (c ∷ s) = omega (arith, length-nil)
count-truncate (suc n) (c ∷ s) = omega (arith, count-truncate n s, length-cons c (truncate n s))

pub truncate-ne : (n : ℕ) (s : String) → s ≢ "" → truncate (suc n) s ≢ ""
unfolding truncate
truncate-ne n [] h = h
truncate-ne n (c ∷ s) h = λ e. absurd (cc)
