-- ===== src/Base/Order.antt =====
-- Strong induction over the native numbers.
use Prim.Native.Nat.{ℕ, zero, suc, ◌<◌}
use native.Mathlib.Omega.{arith}

below {ℓ} : (P : ℕ → Type ℓ) → ((n : ℕ) → ((m : ℕ) → m < n → P m) → P n) → (k n : ℕ) → n < k → P n
below P step zero n h = absurd (omega arith)
below P step (suc k) n h = step n (λ m l. below P step k m (omega arith))

pub strong_induction {ℓ} :
    (P : ℕ → Type ℓ) → ((n : ℕ) → ((m : ℕ) → m < n → P m) → P n) → (n : ℕ) → P n
strong_induction P step n = below P step (suc n) n (omega arith)
