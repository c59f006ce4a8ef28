-- ===== src/Examples/Shares.antt =====
-- Two callers that share one call of a coalescer.
use fluss_go.Prelude.{ℕ, ◌<◌, ◌≡◌, refl, arith, true, false, none}
use fluss_go.Prelude.Errors.{ok}
use fluss_go.Coalescer.{
  SharedCall, Coalescer, join, join_call, settle, settled_call, abandon, claim, close, empty,
}
use fluss_go.Coalescer.{
  drop_current, disposes_now, release_locked, released, must_dispose, leaves_alone,
}
use fluss_go.Coalescer.{value_of, error_of, delivered}
use fluss_go.Coalescer.Steps.{Step, Reach}
use fluss_go.Coalescer.Safety.{
  single_flight, delivered_not_disposed, unclaimed_disposed, disposed_twice,
}

-- The one key.
data Key : Type 0 where
  table : Key

same_key : Discrete Key
same_key table table = yes refl

abbrev unused : SharedCall Key ℕ
unused = record {
  key = table;
  cancelled = false;
  value = none;
  error = none;
  waiters = 0;
  completed = false;
  claimed = false;
  succeeded = false;
  has_dispose = false;
  disposals = 0;
  deliveries = 0;
}

abbrev joined : Coalescer Key ℕ
joined = (join same_key table true (empty same_key unused)).1

abbrev shared : Coalescer Key ℕ
shared = (join same_key table true joined).1

abbrev settled : Coalescer Key ℕ
settled = settle same_key 0 (ok 7) shared

abbrev claimed_once : Coalescer Key ℕ
claimed_once = (claim same_key 0 settled).2

abbrev settled_alone : Coalescer Key ℕ
settled_alone = settle same_key 0 (ok 7) joined

abbrev nobody_left : Coalescer Key ℕ
nobody_left = abandon same_key 0 settled_alone

abbrev given_up : Coalescer Key ℕ
given_up = abandon same_key 0 joined

abbrev closed_with_one : Coalescer Key ℕ
closed_with_one = close same_key none joined

joined-Reach : Reach same_key unused joined
joined-Reach = Reach.later Reach.start (Step.joins table true)

shared-Reach : Reach same_key unused shared
shared-Reach = Reach.later joined-Reach (Step.joins table true)

claimed_once-Reach : Reach same_key unused claimed_once
unfolding empty join join_call settle settled_call abandon claim close drop_current disposes_now
    release_locked released must_dispose leaves_alone value_of error_of delivered same_key
claimed_once-Reach =
    Reach.later (Reach.later shared-Reach (Step.settles 0 (ok 7) (omega arith) refl))
      (Step.claims 0 (omega arith) refl (omega arith))

given_up-Reach : Reach same_key unused given_up
unfolding empty join join_call settle settled_call abandon claim close drop_current disposes_now
    release_locked released must_dispose leaves_alone value_of error_of delivered same_key
given_up-Reach = Reach.later joined-Reach (Step.abandons 0 (omega arith) (omega arith))

nobody_left-Reach : Reach same_key unused nobody_left
unfolding empty join join_call settle settled_call abandon claim close drop_current disposes_now
    release_locked released must_dispose leaves_alone value_of error_of delivered same_key
nobody_left-Reach =
    Reach.later (Reach.later joined-Reach (Step.settles 0 (ok 7) (omega arith) refl))
      (Step.abandons 0 (omega arith) (omega arith))

abbrev first_call : ℕ
first_call = 0

single_flight_example : first_call ≡ first_call
unfolding empty join join_call settle settled_call abandon claim close drop_current disposes_now
    release_locked released must_dispose leaves_alone value_of error_of delivered same_key
single_flight_example =
    single_flight same_key shared-Reach first_call first_call (omega arith) (omega arith) refl refl
      refl (omega arith) (omega arith)

delivered_not_disposed_example : (claimed_once.store 0).disposals ≡ 0
unfolding empty join join_call settle settled_call abandon claim close drop_current disposes_now
    release_locked released must_dispose leaves_alone value_of error_of delivered same_key
delivered_not_disposed_example =
    delivered_not_disposed same_key claimed_once-Reach 0 (omega arith) (omega arith)

unclaimed_disposed_example : 0 < (nobody_left.store 0).disposals
unfolding empty join join_call settle settled_call abandon claim close drop_current disposes_now
    release_locked released must_dispose leaves_alone value_of error_of delivered same_key
unclaimed_disposed_example =
    unclaimed_disposed same_key nobody_left-Reach 0 (omega arith) refl refl refl refl refl

disposed_twice_example :
    ((abandon same_key 0 (settle same_key 0 (ok 7) closed_with_one)).store 0).disposals ≡ 2
unfolding empty join join_call settle settled_call abandon claim close drop_current disposes_now
    release_locked released must_dispose leaves_alone value_of error_of delivered same_key
disposed_twice_example = disposed_twice same_key closed_with_one 0 7 refl refl refl refl refl
