-- ===== src/Transport/Channels.antt =====
-- The channels of the pending requests of internal/transport/connection.go: a table of different ones.
use fluss_go.Prelude.{ℕ, ◌+◌, ◌<◌, List, [], ◌∷◌, Option, none, some, All}
use fluss_go.Prelude.{
  ◌==◌, ==_iff, ◌≡◌, ◌≢◌, refl, sym, ◌∙◌, arith, if_cases, if◌then◌else◌, Bool-cases, inl, inr,
}
use mathlib.Core.Path.{subst}
use fluss_go.Prelude.Assoc.{nat_key, find, put, remove}
use fluss_go.Transport.{Outcome}
use fluss_go.Transport.Pending.{}

-- No request waits on the channel.
abbrev pub Apart : ℕ → List (ℕ × ℕ) → Type 0
Apart ch m = All (λ p. p.1 ≢ ch) m

-- The channels were made, are empty, and are different.
abbrev pub AreOpen : ℕ → (ℕ → Option Outcome) → List (ℕ × ℕ) → Type 0
AreOpen n buffered [] = Unit
AreOpen n buffered ((id, ch) ∷ m) =
    (ch < n) × (buffered ch ≡ none) × Apart ch m × AreOpen n buffered m

remove-All : (P : ℕ × ℕ → Type 0) (id : ℕ) (m : List (ℕ × ℕ)) → All P m → All P (remove id m)
remove-All P id [] all = all
remove-All P id ((l, ch) ∷ m) (p, ps) =
    if_cases (All P) (id == l) (λ _. remove-All P id m ps) (λ _. (p, remove-All P id m ps))

pub remove-AreOpen :
    (n : ℕ) (buffered : ℕ → Option Outcome) (id : ℕ) (m : List (ℕ × ℕ))
    → AreOpen n buffered m
    → AreOpen n buffered (remove id m)
remove-AreOpen n buffered id [] free = free
remove-AreOpen n buffered id ((l, ch) ∷ m) (lt, empty, apart, free) =
    if_cases (AreOpen n buffered) (id == l) (λ _. remove-AreOpen n buffered id m free)
      (λ _. (lt, empty, remove-All _ id m apart, remove-AreOpen n buffered id m free))

find-All :
    (P : ℕ → Type 0) (id ch : ℕ) (m : List (ℕ × ℕ))
    → All (λ p. P p.1) m
    → find id m ≡ some ch
    → P ch
find-All P id ch [] all = λ h. cc
find-All P id ch ((l, w) ∷ m) (p, ps) = elim (Bool-cases (id == l)) [
  | inl q ↦ rw q (λ h. let same : w ≡ ch = cc in subst P same p)
  | inr q ↦ rw q (find-All P id ch m ps)
]

-- What takePending finds: an empty channel that no other request waits on.
pub taken-Apart :
    (n : ℕ) (buffered : ℕ → Option Outcome) (id ch : ℕ) (m : List (ℕ × ℕ))
    → AreOpen n buffered m
    → find id m ≡ some ch
    → (ch < n) × (buffered ch ≡ none) × Apart ch (remove id m)
taken-Apart n buffered id ch [] free = λ h. cc
taken-Apart n buffered id ch ((l, w) ∷ m) (lt, empty, apart, free) = elim (Bool-cases (id == l)) [
  | inl q ↦ rw q (λ h.
      let same : w ≡ ch = cc in
      subst (λ x. (x < n) × (buffered x ≡ none) × Apart x (remove id m)) same
        (lt, empty, remove-All _ id m apart))
  | inr q ↦ rw q (λ h.
      let (lt', empty', rest) = taken-Apart n buffered id ch m free h in
      let other = find-All (λ x. x ≢ w) id ch m apart h in
      (lt', empty', (λ e. other (sym e), rest)))
]

-- A channel's buffer is filled or emptied.
abbrev pub set_buffer : ℕ → Option Outcome → (ℕ → Option Outcome) → ℕ → Option Outcome
set_buffer ch o buffered x = if x == ch then o else buffered x

pub set_buffer-other :
    (ch x : ℕ) (o : Option Outcome) (buffered : ℕ → Option Outcome)
    → x ≢ ch
    → set_buffer ch o buffered x ≡ buffered x
set_buffer-other ch x o buffered h = elim (Bool-cases (x == ch)) [
  | inl q ↦ elim (h ((==_iff x ch).0 q)) [ ]
  | inr q ↦ rw q refl
]

pub set_buffer-same :
    (ch : ℕ) (o : Option Outcome) (buffered : ℕ → Option Outcome) → set_buffer ch o buffered ch ≡ o
set_buffer-same ch o buffered = rw ((==_iff ch ch).1 refl) refl

pub fill-AreOpen :
    (n ch : ℕ) (o : Option Outcome) (buffered : ℕ → Option Outcome) (m : List (ℕ × ℕ))
    → Apart ch m
    → AreOpen n buffered m
    → AreOpen n (set_buffer ch o buffered) m
fill-AreOpen n ch o buffered [] apart free = free
fill-AreOpen n ch o buffered ((l, w) ∷ m) (other, rest) (lt, empty, apart, free) = (
  lt,
  set_buffer-other ch w o buffered other ∙ empty,
  apart,
  fill-AreOpen n ch o buffered m rest free,
)

pub empty_buffer :
    (ch x : ℕ) (buffered : ℕ → Option Outcome)
    → buffered x ≡ none
    → set_buffer ch none buffered x ≡ none
empty_buffer ch x buffered h =
    if_cases (λ (o : Option Outcome). o ≡ none) (x == ch) (λ _. refl) (λ _. h)

pub empty-AreOpen :
    (n ch : ℕ) (buffered : ℕ → Option Outcome) (m : List (ℕ × ℕ))
    → AreOpen n buffered m
    → AreOpen n (set_buffer ch none buffered) m
empty-AreOpen n ch buffered [] free = free
empty-AreOpen n ch buffered ((l, w) ∷ m) (lt, empty, apart, free) =
    (lt, empty_buffer ch w buffered empty, apart, empty-AreOpen n ch buffered m free)

pub below-Apart :
    (n : ℕ) (buffered : ℕ → Option Outcome) (m : List (ℕ × ℕ)) → AreOpen n buffered m → Apart n m
below-Apart n buffered [] free = free
below-Apart n buffered ((l, w) ∷ m) (lt, empty, apart, free) =
    ((λ e. omega arith), below-Apart n buffered m free)

more-AreOpen :
    (n : ℕ) (buffered : ℕ → Option Outcome) (m : List (ℕ × ℕ))
    → AreOpen n buffered m
    → AreOpen (n + 1) buffered m
more-AreOpen n buffered [] free = free
more-AreOpen n buffered ((l, w) ∷ m) (lt, empty, apart, free) =
    (omega arith, empty, apart, more-AreOpen n buffered m free)

put-All :
    (P : ℕ × ℕ → Type 0) (id ch : ℕ) (m : List (ℕ × ℕ)) → P (id, ch) → All P m → All P (put id ch m)
put-All P id ch [] p all = (p, all)
put-All P id ch ((l, w) ∷ m) p (q, qs) =
    if_cases (All P) (id == l) (λ _. (p, qs)) (λ _. (q, put-All P id ch m p qs))

pub put-AreOpen :
    (n : ℕ) (buffered : ℕ → Option Outcome) (id : ℕ) (m : List (ℕ × ℕ))
    → buffered n ≡ none
    → AreOpen n buffered m
    → AreOpen (n + 1) buffered (put id n m)
put-AreOpen n buffered id [] empty free = (omega arith, empty, free, free)
put-AreOpen n buffered id ((l, w) ∷ m) empty (lt, hollow, apart, free) =
    if_cases (AreOpen (n + 1) buffered) (id == l)
      (λ _. (omega arith, empty, below-Apart n buffered m free, more-AreOpen n buffered m free))
      (λ _. (
        omega arith,
        hollow,
        put-All _ id n m (λ e. omega arith) apart,
        put-AreOpen n buffered id m empty free,
      ))
