-- ===== src/Examples/Codes.antt =====
-- Server error codes.
use fluss_go.Prelude.{◌≡◌, refl, true, some}
use fluss_go.Prelude.Errors.{server}
use fluss_go.Codes.{error_category, is_known, response_server_error}
use fluss_go.Codes.Retriable.{is_passing, retried_is_passing}
use fluss_go.Writer.Retry.{writer_retryable}

throttled : response_server_error 72 ≡ some (server 72 true)
unfolding response_server_error
throttled = refl

throttled_again : writer_retryable (server 72 true) ≡ true
unfolding writer_retryable
throttled_again = refl

retried_is_passing_example : (is_known 72 ≡ true) × (is_passing (error_category 72) ≡ true)
retried_is_passing_example = retried_is_passing 72 (server 72 true) throttled throttled_again
