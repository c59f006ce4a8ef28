-- ===== src/Coalescer/Steps.antt =====
-- Executions of a coalescer: every interleaving of its critical sections.
use fluss_go.Prelude.{ℕ, ◌<◌, ◌≡◌, Bool, true, false, Option}
use fluss_go.Prelude.Errors.{GoError, Result}
use fluss_go.Coalescer.{Coalescer, SharedCall, join, settle, claim, abandon, close, empty}

module _ {K V : Type 0} (same : Discrete K) where
  -- A call settles once; a waiter claims a completed call, or abandons any call that it waits for.
  pub data Step (s : Coalescer K V) : Coalescer K V → Type 0 where
    joins : (k : K) (disposes : Bool) → Step s (join same k disposes s).1
    settles :
        (id : ℕ) (r : Result V)
        → id < s.next
        → (s.store id).completed ≡ false
        → Step s (settle same id r s)
    claims :
        (id : ℕ)
        → id < s.next
        → (s.store id).completed ≡ true
        → 0 < (s.store id).waiters
        → Step s (claim same id s).2
    abandons : (id : ℕ) → id < s.next → 0 < (s.store id).waiters → Step s (abandon same id s)
    closes : (reason : Option GoError) → Step s (close same reason s)

  pub data Reach (unused : SharedCall K V) : Coalescer K V → Type 0 where
    start : Reach unused (empty same unused)
    later : {s t : Coalescer K V} → Reach unused s → Step s t → Reach unused t
