-- ===== src/Protocol/Gcd.antt =====
-- `AbstractProtocol::gcd` and `lcm` of common/abstractprotocol.cpp, on 64-bit numbers.
pub mod Divides
pub mod Stein
pub mod Lcm
use ostinato.Base.{
  ℕ, zero, suc, ◌+◌, ◌-◌, ◌*◌, ◌/◌, ◌%◌, ◌^◌, bit_and, bit_or, Bool, true, false, ◌||◌, ltb, ◌==◌,
  if◌then◌else◌, u64, ◌<<<◌, ◌>>>◌,
}

-- The loop that counts the common factors two: `u`, `v` and `shift` when it ends. Every loop gets
-- more rounds than it makes: see `gcd-IsGcd`.
unfoldable pub strip_both : ℕ → ℕ → ℕ → ℕ → ℕ × ℕ × ℕ
strip_both zero u v shift = (u, v, shift)
strip_both (suc fuel) u v shift =
    let rest = strip_both fuel (u >>> 1) (v >>> 1) (suc shift) in
    if bit_and (bit_or u v) 1 == 0 then rest else (u, v, shift)

-- `while ((u & 1) == 0) u >>= 1`.
unfoldable pub strip : ℕ → ℕ → ℕ
strip zero u = u
strip (suc fuel) u = let rest = strip fuel (u >>> 1) in if bit_and u 1 == 0 then rest else u

-- The outer loop, for an odd `u`.
unfoldable pub gcd_loop : ℕ → ℕ → ℕ → ℕ
gcd_loop zero u v = u
gcd_loop (suc fuel) u v =
    let odd = strip v v in
    let u' = if ltb u odd then u else odd in
    let diff = if ltb u odd then odd - u else u - odd in
    let v' = diff >>> 1 in let rest = gcd_loop fuel u' v' in if v' == 0 then u' else rest

unfoldable pub gcd : ℕ → ℕ → ℕ
gcd u v =
    let (u', v', shift) = strip_both u u v 0 in
    if u == 0 || v == 0 then bit_or u v else u64 (gcd_loop (u + v) (strip u' u') v' <<< shift)

unfoldable pub lcm : ℕ → ℕ → ℕ
lcm u v =
    let u' = if u == 0 then 1 else u in
    let v' = if v == 0 then 1 else v in
    if u' == 1 || v' == 1 then u64 (u' * v') else u64 (u' * v') / gcd u' v'
