-- ===== src/Transport/Whole.antt =====
-- internal/transport/connection.go, writeRequest: what it leaves sent on the connection.
use fluss_go.Prelude.{ℕ, zero, suc, ◌+◌, ◌≤◌, ◌<◌, true, false}
use fluss_go.Prelude.{List, [], ◌∷◌, ◌++◌, ◌⊎◌, Option, none, some, length, take, drop, ltb, ◌==◌}
use fluss_go.Prelude.{
  ◌≡◌, refl, sym, ap, ◌∙◌, arith, if_cases, take-append-drop, length-drop, ==_iff, Bool-cases, inl,
  inr,
}
use mathlib.Core.List.{append_assoc, append-nil}
use fluss_go.Prelude.Int.{ℤ, pos, negsuc}
use fluss_go.Transport.{TransportError, short_write}
use fluss_go.Transport.Write.{
  Socket, Written, Request, request_frame, after_taken, after_write, write_frame, discards,
  conclude, after_frame, prepared, checked, write_request,
}

module _ {W : Type 0} (s : Socket W) (out : W → List ℕ) where
  -- What io.Writer documents: the bytes that Write counts are the first ones of what it was given.
  abbrev pub Appends : Type 0
  Appends =
      (p : List ℕ) (w : W) (n : ℕ)
      → (s.write p w).0.written ≡ pos n
      → n ≤ length p
      → out (s.write p w).1 ≡ out w ++ take n p

  -- The deadlines do not send anything.
  abbrev pub IsSilent : Type 0
  IsSilent = (w : W) → (out (s.prepare w).1 ≡ out w) × (out (s.finish w).1 ≡ out w)

  -- An answer of writeRequest that keeps the connection: no error and the whole frame was sent, or an
  -- error and nothing of it.
  abbrev pub IsWhole : List ℕ → List ℕ → Request W → Type 0
  IsWhole before frame r = elim r.discard [
    | true ↦ Unit
    | false ↦ elim r.error [ none ↦ out r.world ≡ before ++ frame | some _ ↦ out r.world ≡ before ]
  ]

  not_less : (a b : ℕ) → ltb a b ≡ false → b ≤ a
  not_less a b h = ground arith

  positive : (total n : ℕ) → (n == 0) ≡ false → 0 < total + n
  positive total zero h = cc
  positive total (suc n) h = omega arith

  shorter :
      {fuel : ℕ} (rest : List ℕ) (n : ℕ)
      → length rest ≤ suc fuel
      → (n == 0) ≡ false
      → length (drop n rest) ≤ fuel
  shorter rest zero fits h = cc
  shorter rest (suc n) fits h = omega (arith, length-drop (suc n) rest)

  rest_at :
      (rest : List ℕ) (n : ℕ) (w w' : W)
      → out w' ≡ out w ++ take n rest
      → out w' ++ drop n rest ≡ out w ++ rest
  rest_at rest n w w' h =
      ap (λ o. o ++ drop n rest) h
      ∙ append_assoc (out w) (take n rest) (drop n rest)
      ∙ ap (λ xs. out w ++ xs) (take-append-drop n rest)

  module _ (appends : Appends) (silent : IsSilent) (before frame : List ℕ) where
    -- An answer of writeFrame: the whole frame was sent, or an error that discards the connection
    -- unless nothing was.
    abbrev IsSent : Written W → Type 0
    IsSent r = elim r.error [
      | none ↦ out r.world ≡ before ++ frame
      | some e ↦ (discards s r.total e ≡ true) ⊎ (out r.world ≡ before)
    ]

    abbrev Sent : Option (Written W) → Type 0
    Sent o = (r : Written W) × (o ≡ some r) × IsSent r

    -- The loop is at a rest of the frame, and has sent the part before it.
    abbrev IsAt : ℕ → List ℕ → W → Type 0
    IsAt total rest w = (out w ++ rest ≡ before ++ frame) × ((0 < total) ⊎ (out w ≡ before))

    discards_some : (total : ℕ) (e : TransportError) → 0 < total → discards s total e ≡ true
    unfolding discards
    discards_some total e h = elim (Bool-cases (total == 0)) [
      | inl q ↦ let none_sent = (==_iff total 0).0 q in absurd (omega arith)
      | inr q ↦ rw q refl
    ]

    discards_short : (total : ℕ) → discards s total short_write ≡ true
    unfolding discards
    discards_short total = elim (Bool-cases (total == 0)) [ inl q ↦ rw q refl | inr q ↦ rw q refl ]

    failed_after :
        (total n : ℕ) (rest : List ℕ) (e : TransportError) (w w' : W)
        → IsAt total rest w
        → out w' ≡ out w ++ take n rest
        → (discards s (total + n) e ≡ true) ⊎ (out w' ≡ before)
    failed_after total zero rest e w w' (sent, inl some_sent) h =
        inl (discards_some (total + 0) e (omega arith))
    failed_after total zero rest e w w' (sent, inr none_sent) h =
        inr (h ∙ append-nil (out w) ∙ none_sent)
    failed_after total (suc n) rest e w w' at h =
        inl (discards_some (total + suc n) e (omega arith))

    module _ (fuel : ℕ) (next : ℕ → List ℕ → W → Option (Written W))
        (rest_sent : (total : ℕ) (rest : List ℕ) (w : W)
          → length rest ≤ fuel
          → IsAt total rest w
          → Sent (next total rest w)) where
      after_taken-Sent :
          (total : ℕ) (rest : List ℕ) (n : ℕ) (e : Option TransportError) (w w' : W)
          → length rest ≤ suc fuel
          → n ≤ length rest
          → IsAt total rest w
          → out w' ≡ out w ++ take n rest
          → Sent (after_taken s next total rest n e w')
      unfolding after_taken
      after_taken-Sent total rest n (some e) w w' fits part at h =
          (_, refl, failed_after total n rest _ w w' at h)
      after_taken-Sent total rest n none w w' fits part at h =
          if_cases Sent (n == 0) (λ _. (_, refl, inl (discards_short (total + n))))
            (λ more.
              rest_sent (total + n) (drop n rest) w' (shorter rest n fits more)
                (rest_at rest n w w' h ∙ at.0, inl (positive total n more)))

      after_write-Sent :
          (total : ℕ) (rest : List ℕ) (written : ℤ) (e : Option TransportError) (w w' : W)
          → length rest ≤ suc fuel
          → IsAt total rest w
          → ((n : ℕ) → written ≡ pos n → n ≤ length rest → out w' ≡ out w ++ take n rest)
          → Sent (after_write s next total rest written e w')
      unfolding after_write
      after_write-Sent total rest (negsuc n) e w w' fits at h =
          (_, refl, inl (discards_short total))
      after_write-Sent total rest (pos n) e w w' fits at h =
          if_cases Sent (ltb (length rest) n) (λ _. (_, refl, inl (discards_short total)))
            (λ small.
              let part = not_less (length rest) n small in
              after_taken-Sent total rest n e w w' fits part at (h n refl part))

    write_frame-Sent :
        (fuel total : ℕ) (rest : List ℕ) (w : W)
        → length rest ≤ fuel
        → IsAt total rest w
        → Sent (write_frame s fuel total rest w)
    unfolding write_frame
    write_frame-Sent fuel total [] w fits (sent, started) =
        (_, refl, sym (append-nil (out w)) ∙ sent)
    write_frame-Sent zero total (b ∷ bs) w fits at = absurd (omega arith)
    write_frame-Sent (suc fuel) total (b ∷ bs) w fits at =
        let r = s.write (b ∷ bs) w in
        after_write-Sent fuel (write_frame s fuel) (λ t rest v. write_frame-Sent fuel t rest v)
          total (b ∷ bs) r.0.written r.0.error w r.1 fits at (λ n. appends (b ∷ bs) w n)

    conclude-IsWhole :
        (total : ℕ) (e f : Option TransportError) (w w' : W)
        → IsSent (record { total = total; error = e; world = w })
        → out w' ≡ out w
        → IsWhole before frame (conclude s total e f w')
    unfolding conclude
    conclude-IsWhole total e (some x) w w' sent h = _
    conclude-IsWhole total none none w w' sent h = h ∙ sent
    conclude-IsWhole total (some x) none w w' (inl q) h = rw q _
    conclude-IsWhole total (some x) none w w' (inr q) h = elim (Bool-cases (discards s total x)) [
      | inl d ↦ rw d _
      | inr d ↦ rw d (h ∙ q)
    ]

    prepared-IsWhole :
        (e : Option TransportError) (w : W)
        → out w ≡ before
        → (r : Request W) × (prepared s frame e w ≡ some r) × IsWhole before frame r
    unfolding prepared after_frame
    prepared-IsWhole (some e) w h = (_, refl, _)
    prepared-IsWhole none w h =
        let (r, e, sent) =
          write_frame-Sent (length frame) 0 frame w (omega arith) (ap (λ o. o ++ frame) h, inr h) in
        let f = s.finish r.world in
        (
          conclude s r.total r.error f.0 f.1,
          ap (after_frame s) e,
          conclude-IsWhole r.total r.error f.0 r.world f.1 sent (silent r.world).1,
        )

    checked-IsWhole :
        (e : Option TransportError) (w : W)
        → out w ≡ before
        → (r : Request W) × (checked s frame e w ≡ some r) × IsWhole before frame r
    unfolding checked
    checked-IsWhole (some e) w h = (_, refl, h)
    checked-IsWhole none w h = prepared-IsWhole (s.prepare w).0 (s.prepare w).1 ((silent w).0 ∙ h)

-- writeRequest returns, whatever conn.Write counts and reports, and when it does not have the connection
-- discarded, then the frame was sent whole and there is no error, or nothing of it was sent and there is
-- one. So the frames on a connection in use are never torn. It holds when the bytes that Write counts are
-- the first ones of what it was given, and the write deadlines send nothing.
pub write_request-IsWhole :
    {W : Type 0} (s : Socket W) (out : W → List ℕ) (key version id : ℕ) (request : List ℕ) (w : W)
    → Appends s out
    → IsSilent s out
    → (r : Request W) × (write_request s key version id request w ≡ some r)
      × IsWhole s out (out w) (request_frame key version id request) r
unfolding write_request
write_request-IsWhole s out key version id request w appends silent =
    checked-IsWhole s out appends silent (out w) (request_frame key version id request)
      (s.ctx_error w) w refl
