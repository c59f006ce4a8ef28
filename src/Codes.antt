-- ===== src/Codes.antt =====
-- pkg/fgo/errors.go: what a server's error code means. The codes are those of
-- pkg/fmsg/api_keys_gen.go, whose table knows 0 to 74, and -1 which is in none of the cases below.
pub mod Retriable
use fluss_go.Prelude.{ℕ, Bool, true, false, ◌&&◌, ◌||◌, List, [], ◌∷◌, Option, none, some}
use fluss_go.Prelude.{leb, ◌==◌, if◌then◌else◌}
use fluss_go.Prelude.Errors.{GoError, server}

-- The sentinels of errorCategory.
pub data Category : Type 0 where
  authentication : Category
  authorization : Category
  unknown_partition : Category
  metadata : Category
  timeout : Category
  storage : Category
  sequence : Category
  record_failure : Category
  validation : Category

abbrev pub one_of : ℕ → List ℕ → Bool
one_of code [] = false
one_of code (c ∷ cs) = (code == c) || one_of code cs

-- The cases of errorCategory, by the numbers of their codes.
unfoldable pub error_category : ℕ → Category
error_category code =
    if one_of code (46 ∷ 51 ∷ [])
    then authentication
    else if one_of code (48 ∷ 47 ∷ 30 ∷ [])
    then authorization
    else if one_of code (36 ∷ [])
    then unknown_partition
    else if one_of code (12 ∷ 21 ∷ 23 ∷ 24 ∷ 44 ∷ 58 ∷ 65 ∷ 74 ∷ [])
    then metadata
    else if one_of code (25 ∷ 1 ∷ [])
    then timeout
    else if one_of code (10 ∷ 11 ∷ 26 ∷ 70 ∷ 72 ∷ [])
    then storage
    else if one_of code (31 ∷ 32 ∷ 33 ∷ [])
    then sequence
    else if one_of code (13 ∷ 14 ∷ [])
    then record_failure
    else validation

abbrev pub retriable_codes : List ℕ
retriable_codes = 1 ∷ 12 ∷ 23 ∷ 25 ∷ 27 ∷ 28 ∷ 29 ∷ 44 ∷ 51 ∷ 55 ∷ 65 ∷ 74 ∷ 70 ∷ 72 ∷ []

unfoldable pub retriable_error_code : ℕ → Bool
retriable_error_code code = one_of code retriable_codes

-- The result of fmsg.LookupErrorCode.
unfoldable pub is_known : ℕ → Bool
is_known code = leb code 74

-- responseServerError: no error for code 0, and else a ServerError.
unfoldable pub response_server_error : ℕ → Option GoError
unfolding is_known retriable_error_code
response_server_error code =
    if code == 0 then none else some (server code (is_known code && retriable_error_code code))
