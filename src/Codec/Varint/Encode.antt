-- ===== src/Codec/Varint/Encode.antt =====
-- What appendVar64 writes, in plain arithmetic.
use fluss_go.Prelude.{ℕ, zero, suc, ◌+◌, ◌/◌, ◌%◌, ◌^◌, ◌≤◌, ◌<◌, ◌≡◌, arith}
use fluss_go.Prelude.{List, [], ◌∷◌, ◌++◌, ltb, length, if◌then◌else◌, lt_wf}
use fluss_go.Prelude.Bits.{set_top_bit}
use fluss_go.Codec.Varint.{append_var64_loop, append_var64}
use mathlib.Core.List.{append_assoc}
use mathlib.Core.WellFounded.{Acc}
use native.Mathlib.Nat.{pow-suc}

-- The groups of seven bits of v, lowest first, for v below 128 ^ (k + 1).
unfoldable pub groups : ℕ → ℕ → List ℕ
groups zero v = v % 256 ∷ []
groups (suc k) v =
    let rest = groups k (v / 128) in if ltb 0x7f v then (v % 128 + 128) ∷ rest else v % 256 ∷ []

append_var64_loop-groups :
    (k : ℕ) (dst : List ℕ) (v : ℕ) (w : Acc ◌<◌ v)
    → v < 128 ^ suc k
    → append_var64_loop dst v w ≡ dst ++ groups k v
unfolding append_var64_loop groups
append_var64_loop-groups zero dst v (Acc.intro _ smaller) h = ground arith
append_var64_loop-groups (suc k) dst v (Acc.intro _ smaller) h =
    let first : List ℕ = (v % 128 + 128) ∷ [] in
    grind (
      arith,
      set_top_bit (v % 256) (omega arith),
      λ (w : Acc ◌<◌ (v / 128)).
          append_var64_loop-groups k (dst ++ first) (v / 128) w
            (omega (arith, pow-suc 128 (suc k))),
      append_assoc dst first (groups k (v / 128)),
    )

pub append_var64-groups :
    (k : ℕ) (dst : List ℕ) (v : ℕ) → v < 128 ^ suc k → append_var64 dst v ≡ dst ++ groups k v
unfolding append_var64
append_var64-groups k dst v h = append_var64_loop-groups k dst v (lt_wf.apply v) h

pub length-groups : (k v : ℕ) → (1 ≤ length (groups k v)) × (length (groups k v) ≤ k + 1)
unfolding groups
length-groups zero v = omega arith
length-groups (suc k) v = ground (arith, length-groups k (v / 128))
