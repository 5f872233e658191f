-- ===== src/Api/Quantity.antt =====
-- k8s.io/apimachinery resource.Quantity is not part of the repository: its operations are a
-- parameter, and what the code relies on is that they act on the exact value of a quantity.
use kruntimes.Base.{String, ◌≡◌, Option}
use kruntimes.Base.Int.{ℤ, pos, ◌+ℤ◌, ltb_ℤ}
use kruntimes.Base.Maps.{Map}

pub record QuantityOps (Q : Type 0) : Type 0 where
  pub add : Q → Q → Q
  pub cmp : Q → Q → ℤ
  pub sign : Q → ℤ
  pub as_int64 : Q → Option ℤ
  pub new_quantity : ℤ → Q
  pub parse_quantity : String → Option Q
  pub format_quantity : Q → String
  -- the value of a missing map entry
  pub zero_quantity : Q
  -- AsDec: the exact value, in nano units
  pub value : Q → ℤ

-- How the operations act on the exact value.
pub record QuantityLaws {Q : Type 0} (k : QuantityOps Q) : Type 0 where
  pub value-add : (a b : Q) → k.value (k.add a b) ≡ k.value a +ℤ k.value b
  pub cmp_pos : (a b : Q) → ltb_ℤ (pos 0) (k.cmp a b) ≡ ltb_ℤ (k.value b) (k.value a)
  pub sign_pos : (a : Q) → ltb_ℤ (pos 0) (k.sign a) ≡ ltb_ℤ (pos 0) (k.value a)
  pub sign_neg : (a : Q) → ltb_ℤ (k.sign a) (pos 0) ≡ ltb_ℤ (k.value a) (pos 0)
  pub value_zero : k.value k.zero_quantity ≡ pos 0

-- corev1.ResourceList
abbrev pub ResourceList : Type 0 → Type 0
ResourceList Q = Map String Q
