-- ===== src/Transport/Frames.antt =====
-- internal/transport/connection.go: readFrame, handleFrame and readLoop. `unmarshal` is proto.Unmarshal
-- of an ErrorResponse, with its code, and a stream is what the socket gives until it ends.
use fluss_go.Prelude.{ℕ, zero, suc, ◌+◌, ◌*◌, ◌^◌, List, [], ◌∷◌}
use fluss_go.Prelude.{Option, none, some, length, take, drop, get_or, ltb, ◌==◌, if◌then◌else◌}
use fluss_go.Transport.{TransportError, body, failed, malformed, remote, frame_too_large, eof}
use fluss_go.Transport.Pending.{Connection, deliver, fail}

-- binary.BigEndian.Uint32 of the first bytes.
abbrev pub get_uint32 : List ℕ → ℕ
get_uint32 xs =
    get_or xs 0 0 * 2 ^ 24 + get_or xs 1 0 * 2 ^ 16 + get_or xs 2 0 * 2 ^ 8 + get_or xs 3 0

-- io.ReadFull
abbrev pub read_full : ℕ → List ℕ → Option (List ℕ × List ℕ)
read_full n stream = if ltb (length stream) n then none else some (take n stream, drop n stream)

-- A frame and the rest of the stream, or an error.
pub data ReadFrame : Type 0 where
  frame_of : List ℕ → List ℕ → ReadFrame
  read_error : TransportError → ReadFrame

abbrev pub frame_or_eof : Option (List ℕ × List ℕ) → ReadFrame
frame_or_eof none = read_error eof
frame_or_eof (some (frame, rest)) = frame_of frame rest

unfoldable pub read_sized : ℕ → ℕ → List ℕ → ReadFrame
read_sized max size rest =
    if ltb size 1
    then read_error malformed
    else if ltb max size
    then read_error frame_too_large
    else frame_or_eof (read_full size rest)

unfoldable pub read_body : ℕ → Option (List ℕ × List ℕ) → ReadFrame
unfolding read_sized
read_body max none = read_error eof
read_body max (some (header, rest)) = read_sized max (get_uint32 header) rest

unfoldable pub read_frame : ℕ → List ℕ → ReadFrame
unfolding read_body
read_frame max stream = read_body max (read_full 4 stream)

abbrev pub response_header_size : ℕ
response_header_size = 5

module _ (unmarshal : List ℕ → Option ℕ) where
  unfoldable pub handle_error_response :
      Option ℕ → ℕ → Connection → Option TransportError × Connection
  handle_error_response none id c = (some malformed, c)
  handle_error_response (some code) id c = (none, deliver id (failed (remote code)) c)

  abbrev pub server_failure : Option ℕ → TransportError
  server_failure none = malformed
  server_failure (some code) = remote code

  -- handleFrame: the error that ends the connection, if any.
  unfoldable pub handle_frame : List ℕ → Connection → Option TransportError × Connection
  unfolding handle_error_response
  handle_frame [] c = (some malformed, c)
  handle_frame (kind ∷ rest) c =
      let id = get_uint32 (take 4 rest) in
      let short = ltb (length (kind ∷ rest)) response_header_size in
      if kind == 0
      then if short then (some malformed, c) else (none, deliver id (body (drop 4 rest)) c)
      else if kind == 1
      then if short
        then (some malformed, c)
        else handle_error_response (unmarshal (drop 4 rest)) id c
      else if kind == 2
      then (some (server_failure (unmarshal rest)), c)
      else (some malformed, c)

  -- readLoop, and the connection as it is when the fuel is out.
  unfoldable pub read_loop : ℕ → ℕ → List ℕ → Connection → Connection
  unfolding read_frame handle_frame
  read_loop zero max stream c = c
  read_loop (suc fuel) max stream c = elim (read_frame max stream) [
    | read_error e ↦ fail e c
    | frame_of frame rest ↦
        let handled = handle_frame frame c in
        elim handled.0 [ some e ↦ fail e handled.1 | none ↦ read_loop fuel max rest handled.1 ]
  ]
