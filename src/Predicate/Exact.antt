-- ===== src/Predicate/Exact.antt =====
-- The decimal literal of a predicate is the number that was given.
use mathlib.Core.Path.{subst}
use fluss_go.Prelude.{ℕ, ◌+◌, ◌-◌, ◌*◌, ◌/◌, ◌%◌, ◌^◌, ◌<◌, false, ◌||◌, not}
use fluss_go.Prelude.{leb, ◌==◌, if◌then◌else◌, then_of, else_of, Bool-cases, inl, inr}
use fluss_go.Prelude.{◌≡◌, ◌≢◌, ap, arith}
use fluss_go.Prelude.Int.{ℤ, pos, negsuc, ltb_ℤ}
use fluss_go.Prelude.Errors.{ok, err, plain, err_invalid_schema}
use native.Mathlib.Nat.{zero-mul}
use fluss_go.Predicate.Literals.{decimal_unscaled, times, over, magnitude}

times-over_pos : (a d : ℕ) → 0 < d → a % d ≡ 0 → a / d * d ≡ a
times-over_pos a d h e = grind arith

quotient_nonzero : (q d a : ℕ) → q * d ≡ a + 1 → q ≢ 0
quotient_nonzero q d a whole zero_q =
    let none_left : q * d ≡ 0 = rw zero_q (zero-mul d) in omega arith

times-over : (v : ℤ) (d : ℕ) → 0 < d → magnitude v % d ≡ 0 → times (over v d) d ≡ v
times-over (pos a) d h e = ap pos (times-over_pos a d h e)
times-over (negsuc a) d h e =
    let q = (a + 1) / d in
    let whole : q * d ≡ a + 1 = times-over_pos (a + 1) d h e in
    let some_times : q ≢ 0 = quotient_nonzero q d a whole in
    let back : q - 1 + 1 ≡ q = omega arith in
    let divides : (d == 0) ≡ false = ground arith in
    rw (divides, back, whole) (ap negsuc (omega arith))

-- A decimal that is accepted, of a precision and a scale that are not negative, is the number that was
-- given: the unscaled value by the denominator is the numerator by ten to the scale, for a denominator
-- that is not 0, and the unscaled value has at most as many digits as the precision.
pub decimal_unscaled-exact :
    (numerator : ℤ) (denominator : ℕ) (precision scale u : ℤ)
    → 0 < denominator
    → decimal_unscaled numerator denominator precision scale ≡ ok u
    → (times u denominator ≡ times numerator (10 ^ magnitude scale))
      × (magnitude u < 10 ^ magnitude precision)
unfolding decimal_unscaled
decimal_unscaled-exact n d precision scale u h accepted =
    let scaled = times n (10 ^ magnitude scale) in
    let unknown = ltb_ℤ precision (pos 1) || ltb_ℤ scale (pos 0) in
    let fraction = not (magnitude scaled % d == 0) in
    let long = leb (10 ^ magnitude precision) (magnitude (over scaled d)) in
    let fits = if long then err plain else ok (over scaled d) in
    let whole = if fraction then err plain else fits in
    elim (Bool-cases unknown) [
      | inl e ↦ cc (then_of unknown whole e accepted)
      | inr e ↦
          let accepted' = else_of unknown (err err_invalid_schema) e accepted in
          elim (Bool-cases fraction) [
            | inl f ↦ cc (then_of fraction fits f accepted')
            | inr f ↦
                let accepted'' = else_of fraction (err plain) f accepted' in
                elim (Bool-cases long) [
                  | inl g ↦ cc (then_of long (ok (over scaled d)) g accepted'')
                  | inr g ↦
                      let same : over scaled d ≡ u = cc (else_of long (err plain) g accepted'') in
                      let divides : magnitude scaled % d ≡ 0 = ground arith in
                      (
                        subst (λ v. times v d ≡ scaled) same (times-over scaled d h divides),
                        subst (λ v. magnitude v < 10 ^ magnitude precision) same (ground arith),
                      )
                ]
          ]
    ]
