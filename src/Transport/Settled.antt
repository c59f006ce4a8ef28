-- ===== src/Transport/Settled.antt =====
-- internal/transport/connection.go: a connection that has failed.
use fluss_go.Prelude.{ℕ, true, false, [], Option, none, some, All}
use fluss_go.Prelude.{◌≡◌, ◌⊎◌, refl, ap, ◌∙◌, Bool-cases, inl, inr}
use fluss_go.Prelude.Assoc.{nat_key, find, remove}
use fluss_go.Transport.{TransportError, Outcome, failed}
use fluss_go.Transport.Pending.{
  Connection, refused, register, complete_full, complete, deliver_to, deliver, complete_all, fail,
}
use fluss_go.Transport.Failing.{complete_all-Completed, closing, fail_open, fail_closed}
use fluss_go.Transport.Wired.{IsWired, deliver-Keeps}

-- A closed connection has no pending request.
unfoldable pub IsSettled : Connection → Type 0
IsSettled c = (c.is_closed ≡ false) ⊎ (c.pending ≡ [])

pub fail-IsSettled :
    (e : TransportError) (c : Connection)
    → IsWired c
    → IsSettled c
    → ((fail e c).is_closed ≡ true) × ((fail e c).pending ≡ [])
unfolding IsSettled IsWired
fail-IsSettled e c (free, beyond) settled = elim (Bool-cases c.is_closed) [
  | inl shut ↦ elim settled [
    | inl up ↦ cc
    | inr none_left ↦ rw (fail_closed e c shut) (shut, none_left)
  ]
  | inr up ↦
      let all = complete_all-Completed c.pending (failed e) (closing e c) free in
      rw (fail_open e c up) (all.same_closed, all.same_pending)
]

complete_full-IsSettled :
    (full : Option Outcome) (ch : ℕ) (o : Outcome) (c : Connection)
    → IsSettled c
    → IsSettled (complete_full full ch o c)
unfolding complete_full IsSettled
complete_full-IsSettled none ch o c h = h
complete_full-IsSettled (some _) ch o c h = h

remove-IsSettled :
    (id : ℕ) (c : Connection) → IsSettled c → IsSettled (record c { pending = remove id c.pending })
unfolding IsSettled
remove-IsSettled id c (inl up) = inl up
remove-IsSettled id c (inr none_left) = inr (ap (remove id) none_left)

deliver_to-IsSettled :
    (found : Option ℕ) (id : ℕ) (o : Outcome) (c : Connection)
    → IsSettled c
    → IsSettled (deliver_to found id o c)
unfolding deliver_to complete
deliver_to-IsSettled none id o c h = remove-IsSettled id c h
deliver_to-IsSettled (some ch) id o c h =
    complete_full-IsSettled (c.buffered ch) ch o (record c { pending = remove id c.pending })
      (remove-IsSettled id c h)

-- deliver keeps the connection's table.
pub deliver-IsSettled :
    (id : ℕ) (o : Outcome) (c : Connection)
    → IsWired c × IsSettled c
    → IsWired (deliver id o c) × IsSettled (deliver id o c)
unfolding deliver
deliver-IsSettled id o c (wired, settled) =
    ((deliver-Keeps id o c wired).0, deliver_to-IsSettled (find id c.pending) id o c settled)

-- When an open connection fails, every pending request gets the error, none stays pending, and a request
-- that comes later is refused with this error, also after a second failure.
pub fail-completes :
    (e f : TransportError) (c : Connection)
    → IsWired c
    → c.is_closed ≡ false
    → All (λ p. (fail f (fail e c)).buffered p.1 ≡ some (failed e)) c.pending
      × ((fail f (fail e c)).pending ≡ [])
      × ((register (fail f (fail e c))).0 ≡ refused e)
unfolding IsWired register
fail-completes e f c (free, beyond) h =
    let all = complete_all-Completed c.pending (failed e) (closing e c) free in
    let first = fail_open e c h in
    let again : fail f (fail e c) ≡ complete_all c.pending (failed e) (closing e c) =
      fail_closed f (fail e c) (ap (λ (d : Connection). d.is_closed) first ∙ all.same_closed)
      ∙ first in
    rw again (all.filled, all.same_pending, rw (all.same_closed, all.same_error) refl)
