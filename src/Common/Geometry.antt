-- ===== src/Common/Geometry.antt =====
-- Cylinder, head and sector as the mixed-radix digits of a block number.
use Prim.Native.Nat.{ℕ, ◌+◌, ◌*◌, ◌/◌, ◌%◌}
use mathlib.Core.Path.{◌≡◌, sym, ap, ◌∙◌}
use native.Mathlib.Nat.{div-div-eq-div-mul, div-add-mod, mul_comm}
use native.Mathlib.Omega.{arith}

pub digits_of : (n a b : ℕ) → (n / (a * b) * a + n / b % a) * b + n % b ≡ n
digits_of n a b =
    let cylinder : n / (a * b) ≡ n / b / a =
      ap (λ k. n / k) (mul_comm a b) ∙ sym (div-div-eq-div-mul n b a) in
    let track : n / (a * b) * a + n / b % a ≡ n / b =
      omega (
        arith,
        cylinder,
        div-add-mod (n / b) a,
        ap (λ t. t * a) cylinder,
        mul_comm a (n / b / a),
      ) in
    ap (λ t. t * b + n % b) track ∙ omega (arith, div-add-mod n b, mul_comm b (n / b))
