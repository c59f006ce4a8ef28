-- ===== src/Coalescer.antt =====
-- pkg/fgo/coalescer.go: at most one operation at a time for a key, shared by all who ask for it.
-- Each function below is one critical section of the code; a sequence of them, in any order, is an
-- execution. The work itself is not modelled: `settle` is given what it returned.
pub mod Steps
pub mod Invariant
pub mod Safety
use fluss_go.Prelude.{ℕ, zero, suc, ◌+◌, ◌-◌, Bool, true, false, ◌&&◌, ◌||◌, not}
use fluss_go.Prelude.{Option, none, some, ◌==◌, if◌then◌else◌, is_some}
use fluss_go.Prelude.Errors.{GoError, Result, ok, err, err_closed}
use mathlib.Core.Logic.{ite}

-- sharedCall, with the key that its goroutine was started for. `disposals` counts the calls of
-- dispose(value), and `deliveries` the waiters that were handed the value.
pub record SharedCall (K V : Type 0) : Type 0 where
  pub key : K
  pub cancelled : Bool
  pub value : Option V
  pub error : Option GoError
  pub waiters : ℕ
  pub completed : Bool
  pub claimed : Bool
  pub succeeded : Bool
  pub has_dispose : Bool
  pub disposals : ℕ
  pub deliveries : ℕ

-- The map of calls, and the calls that were ever made, by number; those from `next` on are unused.
pub record Coalescer (K V : Type 0) : Type 0 where
  pub calls : K → Option ℕ
  pub store : ℕ → SharedCall K V
  pub next : ℕ
  pub closed : Bool
  pub close_err : GoError

abbrev pub set_call : {K V : Type 0} → ℕ → SharedCall K V → Coalescer K V → Coalescer K V
set_call id c s = record s { store = λ j. if id == j then c else s.store j }

-- What is asked for an id that has no call under its key is left.
abbrev pub is_current : Option ℕ → ℕ → Bool
is_current none id = false
is_current (some j) id = id == j

module _ {K V : Type 0} (same : Discrete K) where
  abbrev set_key : K → Option ℕ → Coalescer K V → Coalescer K V
  set_key k v s = record s { calls = λ j. ite (same k j) v (s.calls j) }

  abbrev pub new_call : K → Bool → SharedCall K V
  new_call k disposes = record {
    key = k;
    cancelled = false;
    value = none;
    error = none;
    waiters = 1;
    completed = false;
    claimed = false;
    succeeded = false;
    has_dispose = disposes;
    disposals = 0;
    deliveries = 0;
  }

  unfoldable pub join_call : Option ℕ → K → Bool → Coalescer K V → ℕ × Coalescer K V
  join_call (some id) k disposes s =
      (id, set_call id (record (s.store id) { waiters = (s.store id).waiters + 1 }) s)
  join_call none k disposes s = (
    s.next,
    record (set_key k (some s.next) (set_call s.next (new_call k disposes) s)) {
      next = s.next + 1;
    },
  )

  -- The locked part of Do: the call to wait for, or the error of a closed coalescer.
  unfoldable pub join : K → Bool → Coalescer K V → Result ℕ × Coalescer K V
  unfolding join_call
  join k disposes s =
      if s.closed
      then (err s.close_err, s)
      else let (id, s') = join_call (s.calls k) k disposes s in (ok id, s')

  unfoldable pub drop_current : ℕ → Coalescer K V → Coalescer K V
  drop_current id s =
      let k = (s.store id).key in
      record s {
        calls =
            λ j. if is_current (s.calls k) id then ite (same k j) none (s.calls j) else s.calls j;
      }

  unfoldable pub value_of : Result V → Option V
  value_of (ok v) = some v
  value_of (err e) = none

  unfoldable pub error_of : Result V → Option GoError
  error_of (ok v) = none
  error_of (err e) = some e

  unfoldable pub disposes_now : SharedCall K V → Result V → Bool → Bool
  disposes_now c r closed =
      not c.claimed && is_some (value_of r) && c.has_dispose && (c.waiters == 0 || closed)

  unfoldable pub settled_call : SharedCall K V → Result V → Bool → GoError → SharedCall K V
  unfolding value_of error_of disposes_now
  settled_call c r closed close_err = record c {
    cancelled = true;
    value = value_of r;
    error = if closed then some close_err else error_of r;
    completed = true;
    succeeded = is_some (value_of r);
    disposals = if disposes_now c r closed then c.disposals + 1 else c.disposals;
  }

  -- run, once the work has returned r.
  unfoldable pub settle : ℕ → Result V → Coalescer K V → Coalescer K V
  unfolding drop_current settled_call
  settle id r s = set_call id (settled_call (s.store id) r s.closed s.close_err) (drop_current id s)

  -- The waiter that leaves is the last one, and the call still runs.
  unfoldable pub leaves_alone : SharedCall K V → Bool
  leaves_alone c = (c.waiters - 1 == 0) && not c.completed

  unfoldable pub released : SharedCall K V → SharedCall K V
  released c = record c {
    waiters = c.waiters - 1;
    cancelled = if leaves_alone c then true else c.cancelled;
  }

  unfoldable pub must_dispose : SharedCall K V → Bool
  must_dispose c =
      (c.waiters - 1 == 0) && (c.completed && (not c.claimed && (c.succeeded && c.has_dispose)))

  -- releaseLocked, with its branches side by side: whether the caller has to dispose of the value,
  -- and the new state.
  unfoldable pub release_locked : ℕ → Coalescer K V → Bool × Coalescer K V
  unfolding released must_dispose leaves_alone
  release_locked id s =
      let c = s.store id in
      (must_dispose c, set_call id (released c) (if leaves_alone c then drop_current id s else s))

  -- What a waiter gets: the value only without an error.
  unfoldable pub delivered : SharedCall K V → Option V
  delivered c = if is_some c.error then none else c.value

  -- Do, when the call is done. The value of releaseLocked is not used there.
  unfoldable pub claim : ℕ → Coalescer K V → Option V × Option GoError × Coalescer K V
  unfolding release_locked delivered
  claim id s =
      let c = s.store id in
      let given = if is_some (delivered c) then c.deliveries + 1 else c.deliveries in
      let claimed = set_call id (record c { claimed = true; deliveries = given }) s in
      (delivered c, c.error, (release_locked id claimed).1)

  -- Do, when the waiter's own context is done: release.
  unfoldable pub abandon : ℕ → Coalescer K V → Coalescer K V
  unfolding release_locked
  abandon id s =
      let (dispose, s') = release_locked id s in
      let c = s'.store id in
      set_call id (record c { disposals = if dispose then c.disposals + 1 else c.disposals }) s'

  -- Close; `none` is a nil error. The loop cancels the calls that stand under their key.
  unfoldable pub close : Option GoError → Coalescer K V → Coalescer K V
  close reason s = if s.closed then s else record s {
    closed = true;
    close_err = elim reason [ none ↦ err_closed | some e ↦ e ];
    store = λ id.
        let c = s.store id in
        record c { cancelled = if is_current (s.calls c.key) id then true else c.cancelled };
  }

  unfoldable pub empty : SharedCall K V → Coalescer K V
  empty unused = record {
    calls = λ _. none;
    store = λ _. unused;
    next = 0;
    closed = false;
    close_err = err_closed;
  }
