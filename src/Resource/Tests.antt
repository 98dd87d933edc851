-- ===== src/Resource/Tests.antt =====
-- Runs on concrete resources.
use yunikorn_k8shim.Prelude.{String, ◌≡◌, refl, true, false, some, [], ◌∷◌, eq_iff, arith, ◌↔◌}
use yunikorn_k8shim.Prelude.Dict.{lookup, insert}
use yunikorn_k8shim.Prelude.Unique.{Unique, copy_into}
use yunikorn_k8shim.Prelude.Int64.{add_int64}
use yunikorn_k8shim.Resource.Defs.{Resource, entries, add, sub, equals, add_into, add_entry}
use yunikorn_k8shim.Resource.Sum.{sub-add, quantity, InRange}
use yunikorn_k8shim.Resource.Equality.{equals_iff}

abbrev small : Resource
small = ("memory", 500) ∷ ("vcore", 100) ∷ []

abbrev large : Resource
large = ("vcore", 250) ∷ ("pods", 1) ∷ []

small-Unique : Unique small
unfolding lookup
small-Unique = (refl, (refl, tt))

large-Unique : Unique large
unfolding lookup
large-Unique = (refl, (refl, tt))

small-InRange : InRange small
unfolding lookup
small-InRange k = ground (arith, eq_iff "memory" k, eq_iff "vcore" k)

large-InRange : InRange large
unfolding lookup
large-InRange k = ground (arith, eq_iff "pods" k, eq_iff "vcore" k)

sub-add_example :
    quantity "memory" (sub (some (add (some small) (some large))) (some large))
    ≡ quantity "memory" small
sub-add_example = sub-add "memory" small large small-Unique large-Unique small-InRange large-InRange

equals_iff_example :
    (equals false (some small) (some large) ≡ true)
    ↔ ((k : String) → lookup k (entries (some small)) ≡ lookup k (entries (some large)))
equals_iff_example =
    equals_iff false (some small) (some large) (λ e. absurd (cc)) small-Unique large-Unique

add-small : lookup "vcore" (add (some small) (some large)) ≡ some 350
unfolding add add_into add_entry lookup copy_into insert add_int64
add-small = refl
