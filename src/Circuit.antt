-- ===== src/Circuit.antt =====
-- The circuit breaker in front of the HTTP client (circuitbreak/circuitbreak.go): the item that is
-- kept for a destination, its methods, and what `Do` and the two goroutines do to it. `Status` is
-- one of three texts; "close" stops requests. `FailNum` may fall below 0.
pub mod Steps
mod Tests
use yig.Prelude.{ℕ, zero, suc, ◌+◌, Bool, true, false, ◌&&◌, not, leb, ltb, if◌then◌else◌}
use yig.Prelude.Int.{ℤ, pos, negsuc}

pub data Status : Type 0 where
  is_open closed halfopen : Status

pub record UrlItem : Type 0 where
  pub status : Status
  pub fail_num : ℤ
  pub threshold : ℕ
  pub retry_time : ℕ
  pub max_retry_time : ℕ

unfoldable pub new_url_item : UrlItem
new_url_item = record {
  status = is_open;
  fail_num = pos 0;
  threshold = 10;
  retry_time = 0;
  max_retry_time = 3;
}

abbrev pub incr : ℤ → ℤ
incr (pos n) = pos (suc n)
incr (negsuc zero) = pos 0
incr (negsuc (suc n)) = negsuc n

abbrev pub decr : ℤ → ℤ
decr (pos zero) = negsuc 0
decr (pos (suc n)) = pos n
decr (negsuc n) = negsuc (suc n)

-- `n >= threshold`
abbrev pub at_least : ℤ → ℕ → Bool
at_least (pos n) t = leb t n
at_least (negsuc n) t = false

abbrev pub is_zero : ℤ → Bool
is_zero (pos zero) = true
is_zero (pos (suc n)) = false
is_zero (negsuc n) = false

abbrev pub is_closed : Status → Bool
is_closed closed = true
is_closed _ = false

-- `Add`
unfoldable pub add : UrlItem → UrlItem
add i =
    if at_least (incr i.fail_num) i.threshold && not (is_closed i.status)
    then record i { fail_num = incr i.fail_num; status = closed }
    else record i { fail_num = incr i.fail_num }

-- `Sub`
unfoldable pub sub : UrlItem → UrlItem
sub i = record i { fail_num = decr i.fail_num }

-- `SetOpen`
unfoldable pub set_open : UrlItem → UrlItem
set_open i = record i { retry_time = 0; fail_num = pos 0; status = is_open }

-- `SetClose`
unfoldable pub set_close : UrlItem → UrlItem
set_close i = record i { retry_time = 0; status = closed }

-- `SetHalfOpen`
unfoldable pub set_half_open : UrlItem → UrlItem
set_half_open i = record i { retry_time = 0; fail_num = pos i.max_retry_time; status = halfopen }

-- How `Do` takes a request: CircuitCloseErr, ExceedMaxRetryErr, or on to the HTTP client.
pub data Admission : Type 0 where
  refused_closed refused_retries as_retry as_usual : Admission

-- `Do` up to `cli.HttpClient.Do`, with the count of retries taken in one step.
unfoldable pub admit : UrlItem → Admission × UrlItem
admit i = elim i.status [
  | closed ↦ (refused_closed, i)
  | is_open ↦ (as_usual, i)
  | halfopen ↦ (
    if ltb i.max_retry_time (i.retry_time + 1) then refused_retries else as_retry,
    record i { retry_time = i.retry_time + 1 },
  )
]

-- `Do` behind it, for a request taken as usual, and for a retry; a retry is reported to `RetryChan`
-- next.
unfoldable pub finish_usual : Bool → UrlItem → UrlItem
finish_usual failed i = if failed then add i else i

unfoldable pub finish_retry : Bool → UrlItem → UrlItem
finish_retry failed i = if failed then i else sub i

-- `exceedRetryHandle`, on a report: its `total`, and the item.
unfoldable pub exceed_retry_handle : ℕ → UrlItem → ℕ × UrlItem
exceed_retry_handle total i =
    if leb i.max_retry_time (total + 1)
    then (if is_zero i.fail_num then (total + 1, set_open i) else (0, set_close i))
    else (total + 1, i)

-- `checkStatus`, on a tick
unfoldable pub check_status : UrlItem → UrlItem
check_status i = if is_closed i.status then set_half_open i else i
