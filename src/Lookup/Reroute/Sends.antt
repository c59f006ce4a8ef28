-- ===== src/Lookup/Reroute/Sends.antt =====
-- How often a lookup that may insert is sent to a server.
use fluss_go.Prelude.{ℕ, suc, ◌+◌, ◌≤◌, Bool, true, List, [], ◌∷◌, Option, none, some}
use fluss_go.Prelude.{
  ◌≡◌, refl, sym, ap, ◌∙◌, arith, ◌⊎◌, inl, inr, if_cases, ◌==◌, ==_iff, Bool-cases,
}
use mathlib.Core.Path.{subst}
use fluss_go.Prelude.Errors.{GoError, Result, ok, err, server, err_metadata}
use fluss_go.Codes.{Category, error_category, one_of}
use fluss_go.Lookup.Retry.{RetryPolicy, retry_lookup}
use fluss_go.Lookup.Retry.Once.{mutation-call}
use fluss_go.Lookup.Reroute.{
  BucketWorld, is_metadata_category, is_metadata_error, rerouted, after_send, routed, request_open,
  request_bucket, read_reply, bucket_lookup, lookup_world,
}
use fluss_go.Writer.Retry.{should_replace_connection}

-- The number is one of the numbers.
abbrev IsOneOf : List ℕ → ℕ → Type 0
IsOneOf [] n = ⊥
IsOneOf (x ∷ xs) n = (n ≡ x) ⊎ IsOneOf xs n

one_of-IsOneOf : (n : ℕ) (xs : List ℕ) → one_of n xs ≡ true → IsOneOf xs n
one_of-IsOneOf n [] = λ h. cc
one_of-IsOneOf n (x ∷ xs) = elim (Bool-cases (n == x)) [
  | inl e ↦ rw e (λ h. inl ((==_iff n x).0 e))
  | inr e ↦ rw e (λ h. inr (one_of-IsOneOf n xs h))
]

-- The codes of the server for stale metadata.
abbrev metadata_codes : List ℕ
metadata_codes = 12 ∷ 21 ∷ 23 ∷ 24 ∷ 44 ∷ 58 ∷ 65 ∷ 74 ∷ []

-- The error says that the metadata was stale: ErrMetadata, or an error of the server with one of those
-- codes.
abbrev pub IsStale : GoError → Type 0
IsStale e =
    (e ≡ err_metadata)
    ⊎ ((code : ℕ) × (retriable : Bool) × (e ≡ server code retriable) × IsOneOf metadata_codes code)

category-metadata :
    (code : ℕ) → is_metadata_category (error_category code) ≡ true → IsOneOf metadata_codes code
unfolding error_category
category-metadata code =
    let Q : Category → Type 0 = λ c. is_metadata_category c ≡ true → IsOneOf metadata_codes code in
    if_cases Q (one_of code (46 ∷ 51 ∷ [])) (λ _ h. cc)
      λ _.
        if_cases Q (one_of code (48 ∷ 47 ∷ 30 ∷ [])) (λ _ h. cc)
          λ _.
            if_cases Q (one_of code (36 ∷ [])) (λ _ h. cc)
              λ _.
                if_cases Q (one_of code metadata_codes)
                  (λ is h. one_of-IsOneOf code metadata_codes is)
                  λ _.
                    if_cases Q (one_of code (25 ∷ 1 ∷ [])) (λ _ h. cc)
                      λ _.
                        if_cases Q (one_of code (10 ∷ 11 ∷ 26 ∷ 70 ∷ 72 ∷ [])) (λ _ h. cc)
                          λ _.
                            if_cases Q (one_of code (31 ∷ 32 ∷ 33 ∷ [])) (λ _ h. cc)
                              λ _. if_cases Q (one_of code (13 ∷ 14 ∷ [])) (λ _ h. cc) (λ _ h. cc)

metadata_error-IsStale : (e : GoError) → is_metadata_error e ≡ true → IsStale e
unfolding is_metadata_error
metadata_error-IsStale err_metadata h = inl refl
metadata_error-IsStale (server code retriable) h =
    inr (code, retriable, refl, category-metadata code h)
metadata_error-IsStale _ h = cc

-- `count` counts the requests: RequestTo raises it by one, and nothing else changes it.
pub record Counts {W R T : Type 0} (world : BucketWorld W R) (read : R → W → Result T × W)
    (count : W → ℕ) : Type 0 where
  pub by_send : (node buckets : ℕ) (w : W) → count (world.send node buckets w).1 ≡ suc (count w)
  pub by_route : (w : W) → count (world.route w).1 ≡ count w
  pub by_invalidate : (w : W) → count (world.invalidate w) ≡ count w
  pub by_read : (r : R) (w : W) → count (read r w).1 ≡ count w

module _ {W R T : Type 0} (world : BucketWorld W R) (read : R → W → Result T × W) (count : W → ℕ)
    (k : Counts world read count) where
  -- The first request was answered with an error of stale metadata.
  abbrev pub WasStale : W → Type 0
  WasStale w =
      (node : ℕ) × (buckets : ℕ) × (v : W) × (e : GoError) × (count v ≡ count w)
      × ((world.send node buckets v).0 ≡ err e)
      × IsStale e

  -- From w to w' nothing was sent, or one request, or a second one after a stale answer to the first.
  abbrev pub Sent : W → W → Type 0
  Sent w w' =
      (count w' ≡ count w) ⊎ (count w' ≡ count w + 1) ⊎ ((count w' ≡ count w + 2) × WasStale w)

  rerouted-count :
      (p : Result (ℕ × ℕ) × W)
      → (count (rerouted world p).1 ≡ count p.1) ⊎ (count (rerouted world p).1 ≡ suc (count p.1))
  unfolding rerouted
  rerouted-count (err e, w) = inl refl
  rerouted-count (ok (node, buckets), w) = inr (k.by_send node buckets w)

  -- p is the answer to a first request at v.
  after_send-Sent :
      (w v : W) (node buckets : ℕ) (p : Result R × W)
      → world.send node buckets v ≡ p
      → count v ≡ count w
      → Sent w (after_send world p).1
  unfolding after_send
  after_send-Sent w v node buckets (ok r, u) e same =
      inr (inl (omega (arith, k.by_send node buckets v, ap (λ q. count q.1) e)))
  after_send-Sent w v node buckets (err x, u) e same =
      let one : count u ≡ suc (count w) =
        omega (arith, k.by_send node buckets v, ap (λ q. count q.1) e) in
      let next = world.route (world.invalidate u) in
      if_cases (λ (q : Result R × W). Sent w q.1) (is_metadata_error x)
        (λ stale. elim (rerouted-count next) [
          | inl none_more ↦
              inr (inl (omega (arith, one, k.by_route (world.invalidate u), k.by_invalidate u)))
          | inr second ↦ inr (
              inr (
                omega (arith, one, k.by_route (world.invalidate u), k.by_invalidate u),
                (node, buckets, v, x, same, ap (λ q. q.0) e, metadata_error-IsStale x stale),
              ))
        ])
        (λ _.
          if_cases (λ u'. Sent w u') (should_replace_connection x)
            (λ _. inr (inl (omega (arith, one, k.by_invalidate u)))) (λ _. inr (inl (omega arith))))

  routed-Sent : (w : W) (p : Result (ℕ × ℕ) × W) → count p.1 ≡ count w → Sent w (routed world p).1
  unfolding routed
  routed-Sent w (err e, v) same = inl same
  routed-Sent w (ok (node, buckets), v) same =
      after_send-Sent w v node buckets (world.send node buckets v) refl same

  request_open-Sent : (o : Option GoError) (w : W) → Sent w (request_open world o w).1
  unfolding request_open
  request_open-Sent (some e) w = inl refl
  request_open-Sent none w =
      if_cases (λ (q : Result R × W). Sent w q.1) world.has_router
        (λ _. routed-Sent w (world.route w) (k.by_route w)) (λ _. inl refl)

  read_reply-count : (p : Result R × W) → count (read_reply world read p).1 ≡ count p.1
  read_reply-count (ok r, w) = k.by_read r w
  read_reply-count (err e, w) = refl

  bucket_lookup-Sent : (w : W) → Sent w (bucket_lookup world read w).1
  unfolding bucket_lookup request_bucket
  bucket_lookup-Sent w =
      let p = request_bucket world w in
      let same = read_reply-count p in
      elim (request_open-Sent (world.open_error w) w) [
        | inl none_sent ↦ inl (same ∙ none_sent)
        | inr (inl one) ↦ inr (inl (same ∙ one))
        | inr (inr (two, stale)) ↦ inr (inr (same ∙ two, stale))
      ]

  -- A lookup that may insert is sent to a server once at most, or twice when the first request was
  -- answered with an error of stale metadata: ErrMetadata, or a code of the server for it. It holds
  -- however the lookup ends, for any MaxAttempts of 1 or more, and with a count that each request raises
  -- by one and nothing else changes.
  pub mutation_sends :
      (policy : RetryPolicy) (ctx_err : W → Option GoError) (wait : ℕ → W → Option GoError × W)
      (w : W)
      → 1 ≤ policy.max_attempts
      → Sent w (retry_lookup (lookup_world world read ctx_err wait) policy true w).1
  mutation_sends policy ctx_err wait w h =
      subst (Sent w)
        (sym (ap (λ q. q.1) (mutation-call (lookup_world world read ctx_err wait) policy w h)))
        (bucket_lookup-Sent w)
