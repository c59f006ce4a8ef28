-- ===== src/Transport.antt =====
-- The connection of internal/transport/connection.go: its errors and what a request's channel gets.
pub mod Write
pub mod Whole
pub mod Pending
pub mod Channels
pub mod Failing
pub mod Wired
pub mod Settled
pub mod Frames
pub mod Stream
use fluss_go.Prelude.{ℕ, List, Option, none, some}

-- The errors, told apart by the sentinel that they wrap; `socket` is what net.Conn reports, and
-- `joined` what errors.Join makes.
pub data TransportError : Type 0 where
  closed : TransportError
  frame_too_large : TransportError
  malformed : TransportError
  remote : ℕ → TransportError
  short_write : TransportError
  canceled : TransportError
  deadline_exceeded : TransportError
  eof : TransportError
  ids_exhausted : TransportError
  socket : ℕ → TransportError
  joined : TransportError → TransportError → TransportError

-- errors.Join(e, f), where f is an error.
abbrev pub join_errors : Option TransportError → TransportError → TransportError
join_errors none f = f
join_errors (some e) f = joined e f

-- result: a body, or an error.
pub data Outcome : Type 0 where
  body : List ℕ → Outcome
  failed : TransportError → Outcome
