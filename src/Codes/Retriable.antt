-- ===== src/Codes/Retriable.antt =====
-- Which server errors a writer or a lookup sends again.
use fluss_go.Prelude.{
  ℕ, ◌≡◌, refl, ap, ◌∙◌, arith, Bool, true, false, ◌&&◌, List, [], ◌∷◌, some, ◌==◌, Bool-cases, inl,
  inr,
}
use fluss_go.Prelude.Errors.{GoError, server}
use fluss_go.Codes.{
  Category, authentication, metadata, timeout, storage, validation, one_of, error_category,
}
use fluss_go.Codes.{retriable_codes, retriable_error_code, is_known, response_server_error}
use fluss_go.Writer.Retry.{writer_retryable}

-- The categories of errors that may pass: what the server has stored is not in doubt.
abbrev pub is_passing : Category → Bool
is_passing authentication = true
is_passing metadata = true
is_passing timeout = true
is_passing storage = true
is_passing validation = true
is_passing _ = false

all_of : (ℕ → Bool) → List ℕ → Bool
all_of p [] = true
all_of p (c ∷ cs) = p c && all_of p cs

one_of-all :
    (p : ℕ → Bool) (cs : List ℕ) (code : ℕ)
    → all_of p cs ≡ true
    → one_of code cs ≡ true
    → p code ≡ true
unfolding all_of
one_of-all p [] code = λ all h. cc
one_of-all p (c ∷ cs) code = elim (Bool-cases (code == c)) [
  | inl e ↦ let same : code ≡ c = ground arith in rw same (λ all h. ground arith)
  | inr e ↦ rw e (λ all h. one_of-all p cs code (ground arith) h)
]

and_first : (a b : Bool) → (a && b) ≡ true → a ≡ true
and_first a b h = ground arith

and_second : (a b : Bool) → (a && b) ≡ true → b ≡ true
and_second a b h = ground arith

retriable_passing :
    (code : ℕ) → retriable_error_code code ≡ true → is_passing (error_category code) ≡ true
unfolding retriable_error_code all_of error_category
retriable_passing code h =
    one_of-all (λ c. is_passing (error_category c)) retriable_codes code refl h

-- A server error that is sent again has a code of the table, and is no failure of authorization, of
-- a sequence number, of a record or of a partition that does not exist.
pub retried_is_passing :
    (code : ℕ) (e : GoError)
    → response_server_error code ≡ some e
    → writer_retryable e ≡ true
    → (is_known code ≡ true) × (is_passing (error_category code) ≡ true)
unfolding response_server_error writer_retryable
retried_is_passing code e = elim (Bool-cases (code == 0)) [
  | inl fine ↦ rw fine (λ is retried. cc)
  | inr failed ↦ rw failed (λ is retried.
      let q : server code (is_known code && retriable_error_code code) ≡ e = cc in
      let both : (is_known code && retriable_error_code code) ≡ true =
        ap writer_retryable q ∙ retried in
      (and_first _ _ both, retriable_passing code (and_second _ _ both)))
]
