-- ===== src/Examples/Lookups.antt =====
-- Lookups on concrete tasks.
use fluss_go.Prelude.{ℕ, zero, suc, ◌≡◌, refl, arith, List, [], ◌∷◌, none, some, true}
use fluss_go.Prelude.Errors.{Result, ok, err, canceled, server}
use fluss_go.Lookup.Retry.{RetryPolicy, retry_lookup}
use fluss_go.Lookup.Reroute.{BucketWorld, lookup_world, bucket_lookup}
use fluss_go.Lookup.Reroute.Sends.{Counts, Sent, mutation_sends}
use fluss_go.Lookup.Batches.{LookupTask, dispatch_group, run_lookup_batch}
use fluss_go.Lookup.Batches.Exact.{
  weigh_tasks, weigh_completed, run_lookup_batch-weigh, dispatch_group_exact, concat_batches,
  AllSized,
}

-- A bucket that moved: the first request is refused with NOT_LEADER_OR_FOLLOWER, and counted.
abbrev moved_reply : ℕ → Result ℕ
moved_reply zero = err (server 12 true)
moved_reply (suc n) = err (server 6 true)

abbrev moved_bucket : BucketWorld ℕ ℕ
moved_bucket = record {
  open_error = λ n. none;
  has_router = true;
  route = λ n. (ok (1, 3), n);
  send = λ node buckets n. (moved_reply n, suc n);
  invalidate = λ n. n;
}

abbrev four_attempts : RetryPolicy
four_attempts = record { max_attempts = 4; backoff = none }

abbrev reads_all : ℕ → ℕ → Result ℕ × ℕ
reads_all r n = (ok r, n)

sends_counted : Counts moved_bucket reads_all (λ n. n)
sends_counted = record {
  by_send = λ node buckets n. refl;
  by_route = λ n. refl;
  by_invalidate = λ n. refl;
  by_read = λ r n. refl;
}

mutation_sends_example :
    Sent moved_bucket reads_all
      (λ n. n)
      sends_counted
      0
      (retry_lookup
        (lookup_world moved_bucket reads_all (λ n. none) (λ delay n. (none, n)))
        four_attempts
        true
        0).1
mutation_sends_example =
    mutation_sends moved_bucket reads_all (λ n. n) sends_counted four_attempts (λ n. none)
      (λ delay n. (none, n)) 0 (omega arith)

sent_twice :
    retry_lookup
      (lookup_world moved_bucket reads_all (λ n. none) (λ delay n. (none, n)))
      four_attempts
      true
      0
    ≡ (err (server 6 true), 2)
unfolding retry_lookup bucket_lookup
sent_twice = refl

abbrev three_tasks : List LookupTask
three_tasks =
    record { id = 1; encoded = 7 ∷ []; ctx_err = none }
    ∷ record { id = 2; encoded = 8 ∷ []; ctx_err = some canceled }
    ∷ record { id = 3; encoded = 9 ∷ []; ctx_err = none }
    ∷ []

-- A response with one value too few.
abbrev short_response : List LookupTask → Result (List ℕ)
short_response ts = ok (5 ∷ [])

run_lookup_batch-weigh_example :
    weigh_completed ℕ (λ t. t.id) (run_lookup_batch short_response three_tasks)
    ≡ weigh_tasks (λ t. t.id) three_tasks
run_lookup_batch-weigh_example = run_lookup_batch-weigh ℕ (λ t. t.id) short_response three_tasks

dispatch_group_exact_example :
    let d = dispatch_group {V = ℕ} 2 5 three_tasks in
    (d.all_sent ≡ true) × (concat_batches d.sent ≡ three_tasks) × AllSized 2 d.sent
dispatch_group_exact_example = dispatch_group_exact ℕ 2 5 three_tasks (omega arith) (omega arith)
