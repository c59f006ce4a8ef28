-- ===== src/Writer/Append/Run.antt =====
-- appendWriterLoop.run of pkg/fgo/log_writer.go: the loop takes the next command, completion or
-- tick of the timer, in whatever order they come.
use fluss_go.Prelude.{ℕ, List, [], ◌∷◌, Option, Bool, true, false, if◌then◌else◌}
use fluss_go.Prelude.Errors.{GoError}
use fluss_go.Writer.Append.Slot.{Item, Reply}
use fluss_go.Writer.Append.Actions.{Config, LoopState, handle_completion}
use fluss_go.Writer.Append.{add, queue_all, flush_all}

-- What the select of run is given. A flush and a close come with the completions that the channel
-- gives while they drain, and a bound on their number.
pub data Event : Type 0 where
  item_command : Option GoError → Item → Event
  flush_command : (LoopState → ℕ × Reply) → ℕ → Event
  close_command : (LoopState → ℕ × Reply) → ℕ → Event
  timer_fired : Event
  completion : ℕ → Reply → Event

unfoldable pub handle_event : Config → Event → LoopState → LoopState
handle_event c (item_command ctx_err i) l = add c ctx_err i l
handle_event c (flush_command next fuel) l = (flush_all c next fuel l).0
handle_event c (close_command next fuel) l = (flush_all c next fuel l).0
handle_event c timer_fired l = (queue_all c l).0
handle_event c (completion b reply) l = (handle_completion c b reply l).0

unfoldable pub is_close : Event → Bool
is_close (close_command next fuel) = true
is_close _ = false

-- The loop ends with a close.
unfoldable pub run : Config → List Event → LoopState → LoopState
unfolding is_close handle_event
run c [] l = l
run c (e ∷ es) l =
    let rest = run c es (handle_event c e l) in if is_close e then handle_event c e l else rest
