-- ===== src/Gang/Sample.antt =====
-- Whole numbers as the quantities of Kubernetes.
use yunikorn_k8shim.Prelude.{ℕ, ◌*◌, ◌≤◌, ltb, ◌≡◌, false, arith}
use yunikorn_k8shim.Gang.Defs.{QuantityApi}

pub whole_bound : (q n : ℕ) → ltb n q ≡ false → q ≤ n
whole_bound q n b = ground arith

pub whole_milli_bound : (q n : ℕ) → ltb n q ≡ false → 1000 * q ≤ 1000 * n
whole_milli_bound q n b = ground arith

instance abbrev pub whole : QuantityApi ℕ
whole = record {
  is_negative = λ q. false;
  exceeds = λ q n. ltb n q;
  value = λ q. q;
  milli_value = λ q. 1000 * q;
  value_bound = λ q n s b h. whole_bound q n b;
  milli_value_bound = λ q n s b h. whole_milli_bound q n b;
}
