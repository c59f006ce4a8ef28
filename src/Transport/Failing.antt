-- ===== src/Transport/Failing.antt =====
-- internal/transport/connection.go, fail: the channels of the pending requests.
use fluss_go.Prelude.{ℕ, true, false, List, [], ◌∷◌, Option, none, some, All}
use fluss_go.Prelude.{◌≡◌, refl, sym, ◌∙◌}
use fluss_go.Prelude.Assoc.{nat_key}
use fluss_go.Transport.{TransportError, Outcome, failed}
use fluss_go.Transport.Pending.{Connection, complete_full, complete, complete_all, fail}
use fluss_go.Transport.Channels.{
  Apart, AreOpen, set_buffer, set_buffer-other, set_buffer-same, fill-AreOpen,
}

-- What complete_all does to channels that are different and empty.
pub record Completed (m : List (ℕ × ℕ)) (o : Outcome) (c c' : Connection) : Type 0 where
  pub same_pending : c'.pending ≡ c.pending
  pub same_next : c'.next_channel ≡ c.next_channel
  pub same_closed : c'.is_closed ≡ c.is_closed
  pub same_error : c'.close_err ≡ c.close_err
  pub same_dropped : c'.dropped ≡ c.dropped
  pub others : (x : ℕ) → Apart x m → c'.buffered x ≡ c.buffered x
  pub filled : All (λ p. c'.buffered p.1 ≡ some o) m

complete-empty :
    (full : Option Outcome) (ch : ℕ) (o : Outcome) (c : Connection)
    → full ≡ none
    → complete_full full ch o c ≡ record c { buffered = set_buffer ch (some o) c.buffered }
unfolding complete_full
complete-empty none ch o c e = refl
complete-empty (some _) ch o c e = cc

pub complete_all-Completed :
    (m : List (ℕ × ℕ)) (o : Outcome) (c : Connection)
    → AreOpen c.next_channel c.buffered m
    → Completed m o c (complete_all m o c)
unfolding complete_all complete
complete_all-Completed [] o c free = record {
  same_pending = refl;
  same_next = refl;
  same_closed = refl;
  same_error = refl;
  same_dropped = refl;
  others = λ x apart. refl;
  filled = free;
}
complete_all-Completed ((id, ch) ∷ m) o c (lt, empty, apart, free) =
    let filling = record c { buffered = set_buffer ch (some o) c.buffered } in
    let rest =
      complete_all-Completed m o filling
        (fill-AreOpen c.next_channel ch (some o) c.buffered m apart free) in
    rw (complete-empty (c.buffered ch) ch o c empty) (record {
      same_pending = rest.same_pending;
      same_next = rest.same_next;
      same_closed = rest.same_closed;
      same_error = rest.same_error;
      same_dropped = rest.same_dropped;
      others = λ x (other, others).
          rest.others x others ∙ set_buffer-other ch x (some o) c.buffered (λ e. other (sym e));
      filled = (rest.others ch apart ∙ set_buffer-same ch (some o) c.buffered, rest.filled);
    })

-- The connection as fail leaves it, before the channels get the error.
abbrev pub closing : TransportError → Connection → Connection
closing e c = record c { is_closed = true; close_err = some e; pending = [] }

pub fail_open :
    (e : TransportError) (c : Connection)
    → c.is_closed ≡ false
    → fail e c ≡ complete_all c.pending (failed e) (closing e c)
unfolding fail
fail_open e c h = rw h refl

pub fail_closed : (e : TransportError) (c : Connection) → c.is_closed ≡ true → fail e c ≡ c
unfolding fail
fail_closed e c closed = rw closed refl
