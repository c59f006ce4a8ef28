-- ===== src/Transport/Stream.antt =====
-- internal/transport/connection.go, readFrame and readLoop over a whole stream.
use fluss_go.Prelude.{ℕ, zero, suc, ◌+◌, ◌^◌, ◌≤◌, ◌<◌, true, false, List, [], ◌∷◌, ◌++◌}
use fluss_go.Prelude.{◌⊎◌, Option, none, some, length, take, drop, ltb, ◌==◌}
use fluss_go.Prelude.{
  ◌≡◌, refl, ap, ◌∙◌, arith, if_cases, Bool-cases, Option-cases, inl, inr, length-append,
  take-length_append, drop-length_append, length-drop,
}
use fluss_go.Transport.{TransportError, body, failed, remote}
use fluss_go.Transport.Write.{request_frame, request_payload, put_uint32, request_header_size}
use fluss_go.Transport.Pending.{Connection}
use fluss_go.Transport.Wired.{IsWired}
use fluss_go.Transport.Settled.{IsSettled, fail-IsSettled, deliver-IsSettled}
use fluss_go.Transport.Frames.{
  ReadFrame, frame_of, read_error, response_header_size, frame_or_eof, read_full, get_uint32,
  read_sized, read_body, read_frame, handle_frame, handle_error_response, read_loop,
}

get_uint32-put_uint32 : (n : ℕ) → n < 2 ^ 32 → get_uint32 (put_uint32 n) ≡ n
get_uint32-put_uint32 n h = omega arith

ltb_not : (a b : ℕ) → b ≤ a → ltb a b ≡ false
ltb_not a b h = ground arith

read_full-append : (xs ys : List ℕ) → read_full (length xs) (xs ++ ys) ≡ some (xs, ys)
read_full-append xs ys =
    let enough : ltb (length (xs ++ ys)) (length xs) ≡ false =
      ltb_not (length (xs ++ ys)) (length xs) (omega (arith, length-append xs ys)) in
    rw (enough, take-length_append xs ys, drop-length_append xs ys) refl

read_sized-append :
    (max : ℕ) (xs ys : List ℕ)
    → 1 ≤ length xs
    → length xs ≤ max
    → read_sized max (length xs) (xs ++ ys) ≡ frame_of xs ys
unfolding read_sized
read_sized-append max xs ys some_bytes fits =
    rw (ltb_not (length xs) 1 some_bytes, ltb_not max (length xs) fits)
      (ap frame_or_eof (read_full-append xs ys))

-- A frame that writeRequest makes is read by readFrame as its header and its body, and the stream goes
-- on behind it, when the frame is not longer than the maximum, which Request checks, and than a uint32.
pub read_frame-request_frame :
    (max key version id : ℕ) (request rest : List ℕ)
    → request_header_size + length request ≤ max
    → max < 2 ^ 32
    → read_frame max (request_frame key version id request ++ rest)
      ≡ frame_of (request_payload key version id request) rest
unfolding read_frame read_body request_frame
read_frame-request_frame max key version id request rest fits small =
    let size = request_header_size + length request in
    let payload = request_payload key version id request in
    let same : size ≡ length payload = omega arith in
    let read = read_full-append (put_uint32 size) (payload ++ rest) in
    ap (read_body max) read
    ∙ ap (λ n. read_sized max n (payload ++ rest)) (get_uint32-put_uint32 size (omega arith) ∙ same)
    ∙ read_sized-append max payload rest (omega arith) (omega arith)

sized_shorter :
    (max size : ℕ) (stream frame rest : List ℕ)
    → read_sized max size stream ≡ frame_of frame rest
    → length rest ≤ length stream
unfolding read_sized
sized_shorter max size stream frame rest = elim (Bool-cases (ltb size 1)) [
  | inl q ↦ rw q (λ h. cc)
  | inr q ↦ elim (Bool-cases (ltb max size)) [
    | inl large ↦ rw (q, large) (λ h. cc)
    | inr fits ↦ elim (Bool-cases (ltb (length stream) size)) [
      | inl ends ↦ rw (q, fits, ends) (λ h. cc)
      | inr more ↦
          rw (q, fits, more)
            (λ h.
              let left : drop size stream ≡ rest = cc in
              omega (arith, length-drop size stream, ap length left))
    ]
  ]
]

rest_shorter :
    (max : ℕ) (stream frame rest : List ℕ)
    → read_frame max stream ≡ frame_of frame rest
    → length rest < length stream
unfolding read_frame read_body
rest_shorter max stream frame rest = elim (Bool-cases (ltb (length stream) 4)) [
  | inl q ↦ rw q (λ h. cc)
  | inr q ↦ rw q (λ h.
      let shorter = sized_shorter max (get_uint32 (take 4 stream)) (drop 4 stream) frame rest h in
      let four : 4 ≤ length stream = ground arith in
      omega (arith, shorter, length-drop 4 stream, four))
]

ReadFrame-cases :
    (r : ReadFrame)
    → ((frame : List ℕ) × (rest : List ℕ) × (r ≡ frame_of frame rest))
      ⊎ ((e : TransportError) × (r ≡ read_error e))
ReadFrame-cases (frame_of frame rest) = inl (frame, rest, refl)
ReadFrame-cases (read_error e) = inr (e, refl)

abbrev IsFit : Connection → Type 0
IsFit c = IsWired c × IsSettled c

module _ (unmarshal : List ℕ → Option ℕ) where
  error_response-IsFit :
      (o : Option ℕ) (id : ℕ) (c : Connection)
      → IsFit c
      → IsFit (handle_error_response unmarshal o id c).1
  unfolding handle_error_response
  error_response-IsFit none id c h = h
  error_response-IsFit (some code) id c h = deliver-IsSettled id (failed (remote code)) c h

  handle_frame-IsFit :
      (frame : List ℕ) (c : Connection) → IsFit c → IsFit (handle_frame unmarshal frame c).1
  unfolding handle_frame
  handle_frame-IsFit [] c h = h
  handle_frame-IsFit (kind ∷ rest) c h =
      let Q : Option TransportError × Connection → Type 0 = λ r. IsFit r.1 in
      let id = get_uint32 (take 4 rest) in
      let short = ltb (length (kind ∷ rest)) response_header_size in
      if_cases Q (kind == 0)
        (λ _. if_cases Q short (λ _. h) (λ _. deliver-IsSettled id (body (drop 4 rest)) c h))
        (λ _.
          if_cases Q (kind == 1)
            (λ _.
              if_cases Q short (λ _. h)
                (λ _. error_response-IsFit (unmarshal (drop 4 rest)) id c h))
            (λ _. if_cases Q (kind == 2) (λ _. h) (λ _. h)))

  -- Whatever bytes the stream of a connection has before it ends, readLoop ends, and leaves the connection
  -- closed and without a pending request, in as many rounds as the stream has bytes and one more. It
  -- holds of a connection that is open, or closed without a pending request, with a channel of its own
  -- for each request.
  pub read_loop-closes :
      (fuel max : ℕ) (stream : List ℕ) (c : Connection)
      → length stream < fuel
      → IsWired c
      → IsSettled c
      → ((read_loop unmarshal fuel max stream c).is_closed ≡ true)
        × ((read_loop unmarshal fuel max stream c).pending ≡ [])
  unfolding read_loop
  read_loop-closes zero max stream c enough wired settled = absurd (omega arith)
  read_loop-closes (suc fuel) max stream c enough wired settled =
      elim (ReadFrame-cases (read_frame max stream)) [
        | inr (e, q) ↦ rw (q, read_loop) (fail-IsSettled e c wired settled)
        | inl (frame, rest, q) ↦
            let (wired', settled') = handle_frame-IsFit frame c (wired, settled) in
            let c' = (handle_frame unmarshal frame c).1 in
            elim (Option-cases (handle_frame unmarshal frame c).0) [
              | inl on ↦
                  rw (q, on, read_loop)
                    (read_loop-closes fuel max rest c'
                      (omega (arith, rest_shorter max stream frame rest q)) wired' settled')
              | inr (e, ends) ↦ rw (q, ends, read_loop) (fail-IsSettled e c' wired' settled')
            ]
      ]
