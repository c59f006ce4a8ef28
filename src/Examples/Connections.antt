-- ===== src/Examples/Connections.antt =====
-- A connection whose socket takes one byte at a time, and one with requests, answers and failures.
use fluss_go.Prelude.{ℕ, false, true, List, [], ◌∷◌, ◌++◌, none, some, All, take, map}
use fluss_go.Prelude.{◌≡◌, refl, sym, arith, inl}
use fluss_go.Prelude.Int.{pos}
use mathlib.Core.Path.{subst}
use mathlib.Core.List.{append-nil}
use fluss_go.Transport.{body, failed, eof, socket}
use fluss_go.Transport.Write.{
  Socket, WriteReply, Request, request_frame, request_payload, write_request,
}
use fluss_go.Transport.Whole.{Appends, IsSilent, IsWhole, write_request-IsWhole}
use fluss_go.Transport.Pending.{
  Connection, new_connection, Section, register_call, unregister_call, deliver_call, fail_call,
  receive_call, refused, register, deliver, fail, run_sections,
}
use fluss_go.Transport.Wired.{IsWired, run_sections-IsWired}
use fluss_go.Transport.Settled.{IsSettled, fail-completes}
use fluss_go.Transport.Frames.{read_frame, frame_of, read_loop}
use fluss_go.Transport.Stream.{read_frame-request_frame, read_loop-closes}

-- The world is what was sent.
abbrev take_byte : List ℕ → List ℕ → WriteReply × List ℕ
take_byte [] w = (record { written = pos 0; error = none }, w)
take_byte (b ∷ bs) w = (record { written = pos 1; error = none }, w ++ (b ∷ []))

abbrev bytewise : Socket (List ℕ)
bytewise = record {
  write = take_byte;
  prepare = λ w. (none, w);
  finish = λ w. (none, w);
  ctx_error = λ w. none;
  past_deadline = λ w. false;
}

bytewise-Appends : Appends bytewise (λ w. w)
bytewise-Appends [] w n e le =
    let same : 0 ≡ n = cc in subst (λ k. w ≡ w ++ take k []) same (sym (append-nil w))
bytewise-Appends (b ∷ bs) w n e le =
    let same : 1 ≡ n = cc in subst (λ k. w ++ (b ∷ []) ≡ w ++ take k (b ∷ bs)) same refl

bytewise-IsSilent : IsSilent bytewise (λ w. w)
bytewise-IsSilent w = (refl, refl)

write_request-IsWhole_example :
    (r : Request (List ℕ)) × (write_request bytewise 1012 0 7 (1 ∷ 2 ∷ []) [] ≡ some r)
    × IsWhole bytewise (λ w. w) [] (request_frame 1012 0 7 (1 ∷ 2 ∷ [])) r
write_request-IsWhole_example =
    write_request-IsWhole bytewise (λ w. w) 1012 0 7 (1 ∷ 2 ∷ []) [] bytewise-Appends
      bytewise-IsSilent

new_connection-IsWired : IsWired new_connection
unfolding IsWired
new_connection-IsWired = (_, λ ch le. refl)

-- Two requests, an answer to the second, an answer that nobody waits for, and a failure.
abbrev sections : List Section
sections =
    register_call
    ∷ register_call
    ∷ deliver_call 2 (body (9 ∷ []))
    ∷ deliver_call 5 (body [])
    ∷ receive_call 1
    ∷ unregister_call 2
    ∷ fail_call eof
    ∷ []

run_sections-IsWired_example :
    IsWired (run_sections sections new_connection)
    × ((run_sections sections new_connection).dropped ≡ 0)
run_sections-IsWired_example = run_sections-IsWired sections new_connection new_connection-IsWired

abbrev two_requests : Connection
two_requests = record {
  next_id = 2;
  pending = (1, 0) ∷ (2, 1) ∷ [];
  is_closed = false;
  close_err = none;
  next_channel = 2;
  buffered = λ ch. none;
  dropped = 0;
}

two_requests-IsWired : IsWired two_requests
unfolding IsWired
two_requests-IsWired =
    ((omega arith, refl, ((λ e. omega arith), _), (omega arith, refl, _, _)), λ ch le. refl)

fail-completes_example :
    All
      (λ (p : ℕ × ℕ).
        (fail eof (fail (socket 3) two_requests)).buffered p.1 ≡ some (failed (socket 3)))
      ((1, 0) ∷ (2, 1) ∷ [])
    × ((fail eof (fail (socket 3) two_requests)).pending ≡ [])
    × ((register (fail eof (fail (socket 3) two_requests))).0 ≡ refused (socket 3))
fail-completes_example = fail-completes (socket 3) eof two_requests two_requests-IsWired refl

read_frame-request_frame_example :
    read_frame 100 (request_frame 1012 0 7 (1 ∷ 2 ∷ []) ++ (5 ∷ []))
    ≡ frame_of (request_payload 1012 0 7 (1 ∷ 2 ∷ [])) (5 ∷ [])
read_frame-request_frame_example =
    read_frame-request_frame 100 1012 0 7 (1 ∷ 2 ∷ []) (5 ∷ []) (omega arith) (omega arith)

-- An answer to the request 2, and then half a frame.
abbrev answer : List ℕ
answer = 0 ∷ 0 ∷ 0 ∷ 6 ∷ 0 ∷ 0 ∷ 0 ∷ 0 ∷ 2 ∷ 42 ∷ 0 ∷ 0 ∷ []

two_requests-IsSettled : IsSettled two_requests
unfolding IsSettled
two_requests-IsSettled = inl refl

read_loop-closes_example :
    ((read_loop (λ bytes. none) 13 100 answer two_requests).is_closed ≡ true)
    × ((read_loop (λ bytes. none) 13 100 answer two_requests).pending ≡ [])
read_loop-closes_example =
    read_loop-closes (λ bytes. none) 13 100 answer two_requests (omega arith) two_requests-IsWired
      two_requests-IsSettled

answered :
    map (λ ch. (read_loop (λ bytes. none) 13 100 answer two_requests).buffered ch) (0 ∷ 1 ∷ [])
    ≡ some (failed eof) ∷ some (body (42 ∷ [])) ∷ []
unfolding read_loop fail deliver
answered = refl

second_id :
    (run_sections (register_call ∷ register_call ∷ []) new_connection).pending
    ≡ (1, 0) ∷ (2, 1) ∷ []
unfolding run_sections
second_id = refl
