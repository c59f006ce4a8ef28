-- ===== src/Codec/Varint/Decode.antt =====
-- readVar and readLengthBytes on any input, well formed or not.
use fluss_go.Prelude.{ℕ, zero, suc, ◌+◌, ◌≤◌, ◌<◌, ◌≡◌, arith, inl, inr, List, some, length}
use fluss_go.Prelude.{get_elem?, get_elem?-lt, Option-cases, Bool-cases, ◌==◌}
use fluss_go.Prelude.Bits.{bit_and, bit_or}
use fluss_go.Prelude.Errors.{ok}
use fluss_go.Codec.Varint.{read_var_loop, read_var, group}

round_bounds :
    (rounds : ℕ) (encoded : List ℕ) (position i value v next part : ℕ)
    → ((w : ℕ)
        → read_var_loop rounds encoded (position + 1) (i + 1) w ≡ ok (v, next)
        → (position + 1 < next) × (next ≤ length encoded) × (next ≤ position + 1 + rounds))
    → get_elem? encoded position ≡ some part
    → read_var_loop (suc rounds) encoded position i value ≡ ok (v, next)
    → (position < next) × (next ≤ length encoded) × (next ≤ position + suc rounds)
unfolding read_var_loop
round_bounds rounds encoded position i value v next part ih here e =
    let value' = bit_or value (group part i) in
    let e' = rw (here, read_var_loop) at e in
    elim (Bool-cases (bit_and part 0x80 == 0)) [
      | inl last ↦ ground (arith, rw last at e', get_elem?-lt encoded position here)
      | inr more ↦ ground (arith, ih value' (rw more at e'))
    ]

read_var_loop_bounds :
    (rounds : ℕ) (encoded : List ℕ) (position i value v next : ℕ)
    → read_var_loop rounds encoded position i value ≡ ok (v, next)
    → (position < next) × (next ≤ length encoded) × (next ≤ position + rounds)
unfolding read_var_loop
read_var_loop_bounds zero encoded position i value v next e = cc
read_var_loop_bounds (suc rounds) encoded position i value v next e =
    elim (Option-cases (get_elem? encoded position)) [
      | inl gone ↦ cc (rw (gone, read_var_loop) at e)
      | inr (part, here) ↦
          round_bounds rounds encoded position i value v next part
            (λ w. read_var_loop_bounds rounds encoded (position + 1) (i + 1) w v next) here e
    ]

-- A successful readVar stops behind at least one byte and at most `maximum`, inside the buffer.
pub read_var_bounds :
    (encoded : List ℕ) (position maximum v next : ℕ)
    → read_var encoded position maximum ≡ ok (v, next)
    → (position < next) × (next ≤ length encoded) × (next ≤ position + maximum)
unfolding read_var
read_var_bounds encoded position maximum v next e =
    read_var_loop_bounds maximum encoded position 0 0 v next e
