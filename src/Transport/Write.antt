-- ===== src/Transport/Write.antt =====
-- internal/transport/connection.go, writeRequest: the frame of a request on its way to the socket.
use fluss_go.Prelude.{ℕ, zero, suc, ◌+◌, ◌/◌, ◌%◌, ◌^◌, Bool, true, false, not, ◌||◌}
use fluss_go.Prelude.{
  List, [], ◌∷◌, ◌++◌, Option, none, some, length, drop, ltb, ◌==◌, if◌then◌else◌,
}
use fluss_go.Prelude.Int.{ℤ, pos, negsuc}
use fluss_go.Transport.{TransportError, short_write, canceled, deadline_exceeded, join_errors}

-- binary.BigEndian.PutUint16 and PutUint32 of a value that was converted to the width.
abbrev pub put_uint16 : ℕ → List ℕ
put_uint16 x = x / 2 ^ 8 % 2 ^ 8 ∷ x % 2 ^ 8 ∷ []

abbrev pub put_uint32 : ℕ → List ℕ
put_uint32 x = x / 2 ^ 24 % 2 ^ 8 ∷ x / 2 ^ 16 % 2 ^ 8 ∷ x / 2 ^ 8 % 2 ^ 8 ∷ x % 2 ^ 8 ∷ []

abbrev pub request_header_size : ℕ
request_header_size = 8

-- What follows the size: the key, the version, the id and the body.
abbrev pub request_payload : ℕ → ℕ → ℕ → List ℕ → List ℕ
request_payload key version id request =
    put_uint16 key ++ (put_uint16 version ++ (put_uint32 id ++ request))

unfoldable pub request_frame : ℕ → ℕ → ℕ → List ℕ → List ℕ
request_frame key version id request =
    put_uint32 (request_header_size + length request) ++ request_payload key version id request

-- What conn.Write returns.
pub record WriteReply : Type 0 where
  pub written : ℤ
  pub error : Option TransportError

-- The socket and the context of a request, in a world that each call changes. `prepare` and `finish`
-- are the two halves of prepareWrite, which set and clear the write deadline.
pub record Socket (W : Type 0) : Type 0 where
  pub write : List ℕ → W → WriteReply × W
  pub prepare : W → Option TransportError × W
  pub finish : W → Option TransportError × W
  pub ctx_error : W → Option TransportError
  pub past_deadline : W → Bool

-- What writeFrame returns.
pub record Written (W : Type 0) : Type 0 where
  pub total : ℕ
  pub error : Option TransportError
  pub world : W

-- What writeRequest returns.
pub record Request (W : Type 0) : Type 0 where
  pub discard : Bool
  pub error : Option TransportError
  pub world : W

abbrev pub is_context_error : TransportError → Bool
is_context_error canceled = true
is_context_error deadline_exceeded = true
is_context_error _ = false

module _ {W : Type 0} (s : Socket W) where
  -- interruptedWriteError
  unfoldable pub interrupted_write_error : W → TransportError → TransportError
  interrupted_write_error w e = elim (s.ctx_error w) [
    | some x ↦ x
    | none ↦ if s.past_deadline w then deadline_exceeded else e
  ]

  -- The rest of a round of writeFrame's loop, after conn.Write took n bytes of the frame.
  unfoldable pub after_taken :
      (ℕ → List ℕ → W → Option (Written W))
      → ℕ
      → List ℕ
      → ℕ
      → Option TransportError
      → W
      → Option (Written W)
  unfolding interrupted_write_error
  after_taken next total frame n (some e) w =
      some (record { total = total + n; error = some (interrupted_write_error w e); world = w })
  after_taken next total frame n none w =
      if n == 0
      then some (record { total = total + n; error = some short_write; world = w })
      else next (total + n) (drop n frame) w

  unfoldable pub after_write :
      (ℕ → List ℕ → W → Option (Written W))
      → ℕ
      → List ℕ
      → ℤ
      → Option TransportError
      → W
      → Option (Written W)
  unfolding after_taken
  after_write next total frame (negsuc n) e w =
      some (record { total = total; error = some short_write; world = w })
  after_write next total frame (pos n) e w =
      if ltb (length frame) n
      then some (record { total = total; error = some short_write; world = w })
      else after_taken next total frame n e w

  -- writeFrame, and `none` when the fuel is out.
  unfoldable pub write_frame : ℕ → ℕ → List ℕ → W → Option (Written W)
  unfolding after_write
  write_frame fuel total [] w = some (record { total = total; error = none; world = w })
  write_frame zero total (b ∷ bs) w = none
  write_frame (suc fuel) total (b ∷ bs) w =
      let r = s.write (b ∷ bs) w in
      after_write (write_frame fuel) total (b ∷ bs) r.0.written r.0.error r.1

  unfoldable pub discards : ℕ → TransportError → Bool
  discards total e = not (total == 0) || not (is_context_error e)

  -- The end of writeRequest, with what `finish` returned.
  unfoldable pub conclude : ℕ → Option TransportError → Option TransportError → W → Request W
  unfolding discards
  conclude total write_error (some e) w = record {
    discard = true;
    error = some (join_errors write_error e);
    world = w;
  }
  conclude total none none w = record { discard = false; error = none; world = w }
  conclude total (some e) none w = record { discard = discards total e; error = some e; world = w }

  unfoldable pub after_frame : Option (Written W) → Option (Request W)
  unfolding conclude
  after_frame none = none
  after_frame (some r) = let f = s.finish r.world in some (conclude r.total r.error f.0 f.1)

  unfoldable pub prepared : List ℕ → Option TransportError → W → Option (Request W)
  unfolding write_frame after_frame
  prepared frame (some e) w = some (record { discard = true; error = some e; world = w })
  prepared frame none w = after_frame (write_frame (length frame) 0 frame w)

  unfoldable pub checked : List ℕ → Option TransportError → W → Option (Request W)
  unfolding prepared
  checked frame (some e) w = some (record { discard = false; error = some e; world = w })
  checked frame none w = let p = s.prepare w in prepared frame p.0 p.1

  -- writeRequest. A round of writeFrame that goes on takes a byte, so that the fuel is the frame's length.
  unfoldable pub write_request : ℕ → ℕ → ℕ → List ℕ → W → Option (Request W)
  unfolding request_frame checked
  write_request key version id request w =
      checked (request_frame key version id request) (s.ctx_error w) w
