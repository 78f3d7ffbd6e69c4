-- ===== src/Connection/Backoff.antt =====
-- The delays of the reconnects.
use Prim.Native.Nat.{◌^◌}
use letschat.Common.{ℕ, zero, suc, ◌*◌, ◌/◌, ◌≤◌, ◌<◌, arith}
use letschat.Connection.{ceiling, reconnect_delay}

pow_pos : (n : ℕ) → 1 ≤ 2 ^ n
pow_pos zero = omega arith
pow_pos (suc n) = omega (arith, pow_pos n)

pow_mono : (n m : ℕ) → n ≤ m → 2 ^ n ≤ 2 ^ m
pow_mono zero m h = pow_pos m
pow_mono (suc n) (suc m) h = omega (arith, pow_mono n m (omega arith))
pow_mono (suc n) zero h = absurd (omega arith)

ceiling_bounds : (n : ℕ) → (1000 ≤ ceiling n) × (ceiling n ≤ 30000)
unfolding ceiling
ceiling_bounds n = omega (arith, pow_pos n)

ceiling_mono : (n m : ℕ) → n ≤ m → ceiling n ≤ ceiling m
unfolding ceiling
ceiling_mono n m h = omega (arith, pow_mono n m h)

share : (random x : ℕ) → random < 1000 → random * x / 1000 ≤ x
share random x r = grind arith

share_mono : (random x y : ℕ) → x ≤ y → random * x / 1000 ≤ random * y / 1000
share_mono random x y h = grind arith

-- However often a reconnect failed, the next delay is at least half a second and at most thirty, and the
-- share drawn being the same it never shrinks.
pub reconnect_delay_bounds :
    (n m random : ℕ)
    → n ≤ m
    → random < 1000
    → (500 ≤ reconnect_delay n random)
      × (reconnect_delay n random ≤ 30000)
      × (reconnect_delay n random ≤ reconnect_delay m random)
unfolding reconnect_delay
reconnect_delay_bounds n m random h r =
    let (low, high) = ceiling_bounds n in
    let more = ceiling_mono n m h in
    let half = share random (ceiling n / 2) r in
    let grows = share_mono random (ceiling n / 2) (ceiling m / 2) (omega (arith, more)) in
    (omega (arith, low), omega (arith, high, half), omega (arith, more, grows))
