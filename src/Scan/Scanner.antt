-- ===== src/Scan/Scanner.antt =====
-- pkg/fgo/log_scanner.go: the state of a LogScanner, which its lock guards, and the operations on it.
-- The offsets that the server gives are not negative; a ScanOffset's may be. A zero time is none.
pub mod Poll
pub mod Kept
pub mod Settled
pub mod Limit
pub mod Closed
use fluss_go.Prelude.{ℕ, ◌+◌, Bool, true, false, ◌&&◌, ◌||◌, not}
use fluss_go.Prelude.{List, [], ◌∷◌, Option, none, some}
use fluss_go.Prelude.{ltb, leb, ◌==◌, if◌then◌else◌}
use fluss_go.Prelude.Int.{ℤ, pos, negsuc, pos_part}
use fluss_go.Prelude.Assoc.{nat_key, find, put, remove}
use fluss_go.Prelude.Errors.{
  GoError, Result, ok, err, err_invalid_config, err_unknown_bucket, err_closed, err_wakeup,
}

-- ScanOffsetKind, a uint8.
abbrev pub scan_from_offset : ℕ
scan_from_offset = 0

abbrev pub scan_from_earliest : ℕ
scan_from_earliest = 1

abbrev pub scan_from_latest : ℕ
scan_from_latest = 2

abbrev pub scan_from_timestamp : ℕ
scan_from_timestamp = 3

pub record ScanOffset : Type 0 where
  pub kind : ℕ
  pub offset : ℤ
  pub timestamp : Option ℕ

abbrev is_negative : ℤ → Bool
is_negative (pos _) = false
is_negative (negsuc _) = true

abbrev is_zero : ℤ → Bool
is_zero (pos n) = n == 0
is_zero (negsuc _) = false

abbrev has_time : Option ℕ → Bool
has_time none = false
has_time (some _) = true

abbrev reject_when : Bool → Option GoError
reject_when true = some err_invalid_config
reject_when false = none

-- ScanOffset.Validate
unfoldable pub validate_scan_offset : ScanOffset → Option GoError
validate_scan_offset s =
    if s.kind == scan_from_offset
    then reject_when (is_negative s.offset || has_time s.timestamp)
    else if s.kind == scan_from_earliest || s.kind == scan_from_latest
    then reject_when (not (is_zero s.offset) || has_time s.timestamp)
    else if s.kind == scan_from_timestamp
    then reject_when (not (has_time s.timestamp) || not (is_zero s.offset))
    else some err_invalid_config

-- The configuration and the buckets, which a scanner keeps; a RowLimit of 0 is none.
pub record ScannerConfig : Type 0 where
  pub row_limit : ℕ
  pub stopping : Option (List (ℕ × ℕ))
  pub buckets : List ℕ
  pub dynamic : Bool

-- `polling` is `pollCancel != nil`, and `cancelled` that the poll's context was cancelled.
pub record ScannerState : Type 0 where
  pub offset : List (ℕ × ℕ)
  pub delivered : ℕ
  pub done : Bool
  pub closed : Bool
  pub polling : Bool
  pub cancelled : Bool
  pub wake_pending : Bool

-- `if !ok || offset < stop { return }`, for each bucket.
abbrev pub all_stopped : List (ℕ × ℕ) → List (ℕ × ℕ) → Bool
all_stopped [] stops = true
all_stopped ((bucket, offset) ∷ offsets) stops = elim (find bucket stops) [
  | none ↦ false
  | some stop ↦ leb stop offset && all_stopped offsets stops
]

abbrev is_subscribed : List (ℕ × ℕ) → Bool
is_subscribed [] = false
is_subscribed (_ ∷ _) = true

abbrev pub reached_stops : ScannerConfig → ScannerState → Bool
reached_stops c s = elim c.stopping [
  | none ↦ false
  | some stops ↦ is_subscribed s.offset && all_stopped s.offset stops
]

-- updateDoneLocked
unfoldable pub update_done : ScannerConfig → ScannerState → ScannerState
update_done c s = record s {
  done = if ltb 0 c.row_limit && leb c.row_limit s.delivered then true else reached_stops c s;
}

unfoldable pub has_bucket : List ℕ → ℕ → Bool
has_bucket [] b = false
has_bucket (x ∷ xs) b = (x == b) || has_bucket xs b

-- resolveOffset, with what listOffset gives.
unfoldable pub resolve_offset : ScanOffset → Result ℕ → Result ℕ
resolve_offset start listed =
    if start.kind == scan_from_offset then ok (pos_part start.offset) else listed

-- Subscribe
unfoldable pub subscribe :
    ScannerConfig → ℕ → ScanOffset → Result ℕ → ScannerState → ScannerState × Option GoError
unfolding has_bucket validate_scan_offset resolve_offset update_done
subscribe c b start listed s =
    if not (has_bucket c.buckets b)
    then (s, some err_unknown_bucket)
    else elim (validate_scan_offset start) [
      | some e ↦ (s, some e)
      | none ↦ elim (resolve_offset start listed) [
        | err e ↦ (s, some e)
        | ok offset ↦
            if s.closed
            then (s, some err_closed)
            else (update_done c (record s { offset = put b offset s.offset }), none)
      ]
    ]

-- Unsubscribe
unfoldable pub unsubscribe : ScannerConfig → ℕ → ScannerState → ScannerState
unfolding update_done
unsubscribe c b s = update_done c (record s { offset = remove b s.offset })

-- Wakeup
unfoldable pub wakeup : ScannerState → ScannerState
wakeup s =
    if not s.closed && not s.done
    then record s { wake_pending = true; cancelled = s.cancelled || s.polling }
    else s

-- Close: the scanner's life ends, and with it the context of an active poll.
unfoldable pub close : ScannerState → ScannerState
close s = record s { closed = true; offset = []; cancelled = s.cancelled || s.polling }

unfoldable pub is_at : ℕ → Option ℕ → Bool
is_at previous none = false
is_at previous (some offset) = offset == previous

-- The first part of advanceOffset: an offset that another call changed stays as it is.
unfoldable pub move_offset : ℕ → ℕ → ℕ → ℕ → ScannerState → ScannerState
unfolding is_at
move_offset b previous next delivered s = record s {
  offset = if is_at previous (find b s.offset) then put b next s.offset else s.offset;
  delivered = s.delivered + delivered;
}

-- advanceOffset
unfoldable pub advance_offset : ScannerConfig → ℕ → ℕ → ℕ → ℕ → ScannerState → ScannerState
unfolding move_offset update_done
advance_offset c b previous next delivered s =
    update_done c (move_offset b previous next delivered s)

-- The calls that other goroutines may make while a poll is active.
pub data Call : Type 0 where
  subscribing : ℕ → ScanOffset → Result ℕ → Call
  unsubscribing : ℕ → Call
  waking : Call
  closing : Call

unfoldable pub run_call : ScannerConfig → Call → ScannerState → ScannerState
unfolding subscribe unsubscribe wakeup close
run_call c (subscribing b start listed) s = (subscribe c b start listed s).0
run_call c (unsubscribing b) s = unsubscribe c b s
run_call c waking s = wakeup s
run_call c closing s = close s

unfoldable pub run_calls : ScannerConfig → List Call → ScannerState → ScannerState
unfolding run_call
run_calls c [] s = s
run_calls c (x ∷ xs) s = run_calls c xs (run_call c x s)
