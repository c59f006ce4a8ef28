-- ===== src/Transport/Pending.antt =====
-- internal/transport/connection.go: the table of pending requests, register, unregister, deliver, fail.
-- A channel is a number, and `buffered` what its buffer of one result holds.
use fluss_go.Prelude.{ℕ, zero, suc, ◌+◌, ◌-◌, ◌%◌, ◌^◌, Bool, true, false, ◌&&◌}
use fluss_go.Prelude.{List, [], ◌∷◌, Option, none, some, ltb, ◌==◌, if◌then◌else◌}
use fluss_go.Prelude.Assoc.{nat_key, find, put, remove}
use fluss_go.Transport.{TransportError, Outcome, closed, ids_exhausted, failed}

-- The part of Connection that its mutex guards, and the channels. `dropped` counts the results that
-- `complete` could not put into a channel. nextID is an int32, here its 32 bits.
pub record Connection : Type 0 where
  pub next_id : ℕ
  pub pending : List (ℕ × ℕ)
  pub is_closed : Bool
  pub close_err : Option TransportError
  pub next_channel : ℕ
  pub buffered : ℕ → Option Outcome
  pub dropped : ℕ

-- New
abbrev pub new_connection : Connection
new_connection = record {
  next_id = 0;
  pending = [];
  is_closed = false;
  close_err = none;
  next_channel = 0;
  buffered = λ ch. none;
  dropped = 0;
}

-- `c.nextID++; if c.nextID <= 0 { c.nextID = 1 }`
unfoldable pub advance_id : ℕ → ℕ
advance_id n = let m = (n + 1) % 2 ^ 32 in if ltb 0 m && ltb m (2 ^ 31) then m else 1

-- The loop of register, with `tries` rounds left: whether it finds a free id, and nextID after it.
unfoldable pub free_id : ℕ → ℕ → List (ℕ × ℕ) → Bool × ℕ
unfolding advance_id
free_id zero n pending = (false, n)
free_id (suc tries) n pending = elim (find (advance_id n) pending) [
  | none ↦ (true, advance_id n)
  | some _ ↦ free_id tries (advance_id n) pending
]

-- err
abbrev pub close_error : Option TransportError → TransportError
close_error none = closed
close_error (some e) = e

-- What register returns: the id and the channel, or an error.
pub data Registered : Type 0 where
  registered : ℕ → ℕ → Registered
  refused : TransportError → Registered

unfoldable pub add_pending : Bool × ℕ → Connection → Registered × Connection
add_pending (false, id) c = (refused ids_exhausted, record c { next_id = id })
add_pending (true, id) c = (
  registered id c.next_channel,
  record c {
    next_id = id;
    pending = put id c.next_channel c.pending;
    next_channel = c.next_channel + 1;
  },
)

unfoldable pub register : Connection → Registered × Connection
unfolding free_id add_pending
register c =
    if c.is_closed
    then (refused (close_error c.close_err), c)
    else add_pending (free_id (2 ^ 32 - 1) c.next_id c.pending) c

unfoldable pub unregister : ℕ → Connection → Connection
unregister id c = record c { pending = remove id c.pending }

-- complete: `ch <- outcome` unless the buffer is full.
unfoldable pub complete_full : Option Outcome → ℕ → Outcome → Connection → Connection
complete_full none ch o c = record c { buffered = λ x. if x == ch then some o else c.buffered x }
complete_full (some _) ch o c = record c { dropped = c.dropped + 1 }

unfoldable pub complete : ℕ → Outcome → Connection → Connection
unfolding complete_full
complete ch o c = complete_full (c.buffered ch) ch o c

-- deliver, with takePending. The result is put into the channel after the mutex is released, which no
-- other section does for a channel that was taken, so that both are one section here.
unfoldable pub deliver_to : Option ℕ → ℕ → Outcome → Connection → Connection
unfolding complete
deliver_to none id o c = record c { pending = remove id c.pending }
deliver_to (some ch) id o c = complete ch o (record c { pending = remove id c.pending })

unfoldable pub deliver : ℕ → Outcome → Connection → Connection
unfolding deliver_to
deliver id o c = deliver_to (find id c.pending) id o c

unfoldable pub complete_all : List (ℕ × ℕ) → Outcome → Connection → Connection
unfolding complete
complete_all [] o c = c
complete_all ((id, ch) ∷ rest) o c = complete_all rest o (complete ch o c)

-- fail, with the map's channels in the order of the list; they too get the error after the mutex is
-- released.
unfoldable pub fail : TransportError → Connection → Connection
unfolding complete_all
fail e c =
    if c.is_closed
    then c
    else complete_all c.pending (failed e)
        (record c { is_closed = true; close_err = some e; pending = [] })

-- `outcome := <-resultCh`
unfoldable pub receive : ℕ → Connection → Option Outcome × Connection
receive ch c = (c.buffered ch, record c { buffered = λ x. if x == ch then none else c.buffered x })

-- The critical sections of the goroutines that use a connection.
pub data Section : Type 0 where
  register_call : Section
  unregister_call : ℕ → Section
  deliver_call : ℕ → Outcome → Section
  fail_call : TransportError → Section
  receive_call : ℕ → Section

unfoldable pub run_section : Section → Connection → Connection
unfolding register unregister deliver fail receive
run_section register_call c = (register c).1
run_section (unregister_call id) c = unregister id c
run_section (deliver_call id o) c = deliver id o c
run_section (fail_call e) c = fail e c
run_section (receive_call ch) c = (receive ch c).1

unfoldable pub run_sections : List Section → Connection → Connection
unfolding run_section
run_sections [] c = c
run_sections (x ∷ xs) c = run_sections xs (run_section x c)
