-- ===== src/Writer/Retry/Backoff.antt =====
-- The doubling delays, without the loop.
use fluss_go.Prelude.{ℕ, zero, suc, ◌-◌, ◌*◌, ◌^◌, ◌<◌, ◌≡◌, ap, arith}
use fluss_go.Prelude.{ltb, Bool-cases, inl, inr}
use fluss_go.Writer.Retry.{double_loop, doubling_delay, second}
use Prim.Native.Nat.{min}
use native.Mathlib.Nat.{pow-suc, one-le-pow}

double_loop-capped :
    (rounds delay : ℕ)
    → 0 < delay
    → min second (double_loop rounds delay) ≡ min second (delay * 2 ^ rounds)
unfolding double_loop
double_loop-capped zero delay h = omega arith
double_loop-capped (suc rounds) delay h =
    let more : delay * 2 ^ suc rounds ≡ delay * 2 * 2 ^ rounds =
      omega (arith, ap (λ (t : ℕ). delay * t) (pow-suc 2 rounds)) in
    elim (Bool-cases (ltb delay second)) [
      | inl e ↦ rw (e, more) (double_loop-capped rounds (delay * 2) (omega arith))
      | inr e ↦ rw e (grind (arith, one-le-pow (suc rounds) 2))
    ]

-- For a positive first delay, the delay after a failed attempt is the first delay doubled for each
-- attempt before it, and one second where that is more.
pub doubling_delay-min :
    (first attempt : ℕ)
    → 0 < first
    → doubling_delay first attempt ≡ min second (first * 2 ^ (attempt - 1))
unfolding doubling_delay
doubling_delay-min first attempt h = ground (arith, double_loop-capped (attempt - 1) first h)
