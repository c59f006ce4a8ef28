-- ===== src/Transport/Wired.antt =====
-- The table of pending requests of internal/transport/connection.go, through its critical sections.
use fluss_go.Prelude.{Bool, true, false, ℕ, ◌-◌, ◌^◌, ◌≤◌, ◌<◌, List, [], ◌∷◌, Option, none, some}
use fluss_go.Prelude.{◌≡◌, refl, ◌∙◌, arith, if_cases}
use fluss_go.Prelude.Assoc.{nat_key, find, remove}
use fluss_go.Transport.{TransportError, Outcome, failed}
use fluss_go.Transport.Pending.{
  Connection, Section, register_call, unregister_call, deliver_call, fail_call, receive_call,
  Registered, free_id, add_pending, register, unregister, complete_full, complete, deliver_to,
  deliver, complete_all, fail, receive, run_section, run_sections,
}
use fluss_go.Transport.Channels.{
  Apart, AreOpen, remove-AreOpen, taken-Apart, set_buffer, set_buffer-other, fill-AreOpen,
  empty_buffer, empty-AreOpen, put-AreOpen,
}
use fluss_go.Transport.Failing.{complete_all-Completed, closing}

unfoldable pub IsWired : Connection → Type 0
IsWired c =
    AreOpen c.next_channel c.buffered c.pending
    × ((ch : ℕ) → c.next_channel ≤ ch → c.buffered ch ≡ none)

-- A section loses no result and keeps the table.
abbrev Keeps : Connection → Connection → Type 0
Keeps c c' = IsWired c' × (c'.dropped ≡ c.dropped)

beyond_fill :
    (c : Connection) (ch : ℕ) (o : Option Outcome)
    → ch < c.next_channel
    → ((x : ℕ) → c.next_channel ≤ x → c.buffered x ≡ none)
    → (x : ℕ) → c.next_channel ≤ x
    → set_buffer ch o c.buffered x ≡ none
beyond_fill c ch o lt beyond x le =
    set_buffer-other ch x o c.buffered (λ e. omega arith) ∙ beyond x le

add_pending-Keeps : (o : Bool × ℕ) (c : Connection) → IsWired c → Keeps c (add_pending o c).1
unfolding add_pending IsWired
add_pending-Keeps (false, id) c wired = (wired, refl)
add_pending-Keeps (true, id) c (free, beyond) = (
  (
    put-AreOpen c.next_channel c.buffered id c.pending (beyond c.next_channel (omega arith)) free,
    λ x le. beyond x (omega arith),
  ),
  refl,
)

register-Keeps : (c : Connection) → IsWired c → Keeps c (register c).1
unfolding register
register-Keeps c wired =
    if_cases (λ (r : Registered × Connection). Keeps c r.1) c.is_closed (λ _. (wired, refl))
      (λ _. add_pending-Keeps (free_id (2 ^ 32 - 1) c.next_id c.pending) c wired)

unregister-Keeps : (id : ℕ) (c : Connection) → IsWired c → Keeps c (unregister id c)
unfolding unregister IsWired
unregister-Keeps id c (free, beyond) =
    ((remove-AreOpen c.next_channel c.buffered id c.pending free, beyond), refl)

complete-Keeps :
    (full : Option Outcome) (ch : ℕ) (o : Outcome) (c : Connection)
    → full ≡ none
    → ch < c.next_channel
    → Apart ch c.pending
    → IsWired c
    → Keeps c (complete_full full ch o c)
unfolding complete_full IsWired
complete-Keeps none ch o c e lt apart (free, beyond) = (
  (
    fill-AreOpen c.next_channel ch (some o) c.buffered c.pending apart free,
    beyond_fill c ch (some o) lt beyond,
  ),
  refl,
)
complete-Keeps (some _) ch o c e lt apart wired = cc

deliver_to-Keeps :
    (found : Option ℕ) (id : ℕ) (o : Outcome) (c : Connection)
    → find id c.pending ≡ found
    → IsWired c
    → Keeps c (deliver_to found id o c)
unfolding deliver_to complete IsWired
deliver_to-Keeps none id o c e (free, beyond) =
    ((remove-AreOpen c.next_channel c.buffered id c.pending free, beyond), refl)
deliver_to-Keeps (some ch) id o c e (free, beyond) =
    let (lt, empty, apart) = taken-Apart c.next_channel c.buffered id ch c.pending free e in
    complete-Keeps (c.buffered ch) ch o (record c { pending = remove id c.pending }) empty lt apart
      (remove-AreOpen c.next_channel c.buffered id c.pending free, beyond)

pub deliver-Keeps : (id : ℕ) (o : Outcome) (c : Connection) → IsWired c → Keeps c (deliver id o c)
unfolding deliver
deliver-Keeps id o c wired = deliver_to-Keeps (find id c.pending) id o c refl wired

beyond-Apart :
    (n : ℕ) (buffered : ℕ → Option Outcome) (m : List (ℕ × ℕ)) (x : ℕ)
    → AreOpen n buffered m
    → n ≤ x
    → Apart x m
beyond-Apart n buffered [] x free le = free
beyond-Apart n buffered ((l, w) ∷ m) x (lt, empty, apart, free) le =
    ((λ e. omega arith), beyond-Apart n buffered m x free le)

closed-Keeps :
    (e : TransportError) (c : Connection)
    → IsWired c
    → Keeps c (complete_all c.pending (failed e) (closing e c))
unfolding IsWired
closed-Keeps e c (free, beyond) =
    let all = complete_all-Completed c.pending (failed e) (closing e c) free in
    (
      (
        rw all.same_pending _,
        λ x le.
            let le' : c.next_channel ≤ x = omega (arith, all.same_next, le) in
            all.others x (beyond-Apart c.next_channel c.buffered c.pending x free le')
            ∙ beyond x le',
      ),
      all.same_dropped,
    )

fail-Keeps : (e : TransportError) (c : Connection) → IsWired c → Keeps c (fail e c)
unfolding fail
fail-Keeps e c wired =
    if_cases (Keeps c) c.is_closed (λ _. (wired, refl)) (λ _. closed-Keeps e c wired)

receive-Keeps : (ch : ℕ) (c : Connection) → IsWired c → Keeps c (receive ch c).1
unfolding receive IsWired
receive-Keeps ch c (free, beyond) = (
  (
    empty-AreOpen c.next_channel ch c.buffered c.pending free,
    λ x le. empty_buffer ch x c.buffered (beyond x le),
  ),
  refl,
)

section-Keeps : (x : Section) (c : Connection) → IsWired c → Keeps c (run_section x c)
unfolding run_section
section-Keeps register_call c wired = register-Keeps c wired
section-Keeps (unregister_call id) c wired = unregister-Keeps id c wired
section-Keeps (deliver_call id o) c wired = deliver-Keeps id o c wired
section-Keeps (fail_call e) c wired = fail-Keeps e c wired
section-Keeps (receive_call ch) c wired = receive-Keeps ch c wired

-- However the critical sections of a connection follow each other, each pending request has a channel of
-- its own whose buffer is empty, and no result is dropped because a channel is full. It holds after the
-- sections when it holds before, as it does of a new connection.
pub run_sections-IsWired :
    (xs : List Section) (c : Connection)
    → IsWired c
    → IsWired (run_sections xs c) × ((run_sections xs c).dropped ≡ c.dropped)
unfolding run_sections
run_sections-IsWired [] c wired = (wired, refl)
run_sections-IsWired (x ∷ xs) c wired =
    let (now, same) = section-Keeps x c wired in
    let (then', rest) = run_sections-IsWired xs (run_section x c) now in (then', rest ∙ same)
