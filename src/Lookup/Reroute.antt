-- ===== src/Lookup/Reroute.antt =====
-- The request of a lookup: RequestBucket of pkg/fgo/client.go, over a world W of the router and the
-- connections, and what pkg/fgo/lookup_backend.go reads from the response.
pub mod Sends
use fluss_go.Prelude.{ℕ, Bool, true, false, Option, none, some, if◌then◌else◌}
use fluss_go.Prelude.Errors.{GoError, Result, ok, err, server, err_metadata, err_closed}
use fluss_go.Codes.{Category, metadata, error_category}
use fluss_go.Lookup.Retry.{LookupWorld}
use fluss_go.Writer.Retry.{should_replace_connection}

abbrev pub is_metadata_category : Category → Bool
is_metadata_category metadata = true
is_metadata_category _ = false

-- `errors.Is(err, ErrMetadata)`, by ServerError.Is for an error of the server.
unfoldable pub is_metadata_error : GoError → Bool
unfolding error_category
is_metadata_error err_metadata = true
is_metadata_error (server code retriable) = is_metadata_category (error_category code)
is_metadata_error _ = false

-- The client at one bucket: ensureOpen, whether it has a router, routePhysical, which gives a node and a
-- bucket count, RequestTo with the count in the request, and InvalidatePhysical.
pub record BucketWorld (W R : Type 0) : Type 0 where
  pub open_error : W → Option GoError
  pub has_router : Bool
  pub route : W → Result (ℕ × ℕ) × W
  pub send : ℕ → ℕ → W → Result R × W
  pub invalidate : W → W

module _ {W R : Type 0} (world : BucketWorld W R) where
  open world use {open_error, has_router, route, send, invalidate}

  -- The second request, to the node of the refreshed metadata.
  unfoldable pub rerouted : Result (ℕ × ℕ) × W → Result R × W
  rerouted (err e, w) = (err e, w)
  rerouted (ok (node, count), w) = send node count w

  unfoldable pub after_send : Result R × W → Result R × W
  unfolding rerouted is_metadata_error should_replace_connection
  after_send (ok r, w) = (ok r, w)
  after_send (err e, w) =
      if is_metadata_error e
      then rerouted (route (invalidate w))
      else (err e, if should_replace_connection e then invalidate w else w)

  unfoldable pub routed : Result (ℕ × ℕ) × W → Result R × W
  unfolding after_send
  routed (err e, w) = (err e, w)
  routed (ok (node, count), w) = after_send (send node count w)

  -- RequestBucket, with what ensureOpen returned.
  unfoldable pub request_open : Option GoError → W → Result R × W
  unfolding routed
  request_open (some e) w = (err e, w)
  request_open none w = if has_router then routed (route w) else (err err_closed, w)

  unfoldable pub request_bucket : W → Result R × W
  unfolding request_open
  request_bucket w = request_open (open_error w) w

  module _ {T : Type 0} (read : R → W → Result T × W) where
    abbrev pub read_reply : Result R × W → Result T × W
    read_reply (err e, w) = (err e, w)
    read_reply (ok r, w) = read r w

    -- The call of a lookup, with the response read by `read`.
    unfoldable pub bucket_lookup : W → Result T × W
    unfolding request_bucket
    bucket_lookup w = read_reply (request_bucket w)

    -- What retryLookup gets.
    abbrev pub lookup_world : (W → Option GoError) → (ℕ → W → Option GoError × W) → LookupWorld W T
    lookup_world ctx_err wait = record { call = bucket_lookup; ctx_err = ctx_err; wait = wait }
