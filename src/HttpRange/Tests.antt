-- ===== src/HttpRange/Tests.antt =====
-- Runs of the range parser, and the theorems at concrete texts.
use yig.Prelude.{◌≡◌, refl, ◌↔◌, arith, codes}
use yig.Prelude.Int.{pos, ◌-ℤ◌, ◌≤ℤ◌}
use yig.HttpRange.{
  HttpRange, ok, err, malformed, invalid, parse_request_range, strip_prefix, cut_at, offset_of,
  all_digits, parse_int, decimal_from, resolve,
}
use yig.HttpRange.Bounds.{Asked}
use yig.HttpRange.Parse.{side, parse_request_range-Asked}

abbrev first_five : HttpRange
first_five = record { offset_begin = pos 0; offset_end = pos 4; resource_size = pos 10 }

abbrev last_three : HttpRange
last_three = record { offset_begin = pos 7; offset_end = pos 9; resource_size = pos 10 }

parses :
    (parse_request_range (codes "bytes=0-4") 10 ≡ ok first_five)
    × (parse_request_range (codes "bytes=-3") 10 ≡ ok last_three)
    × (parse_request_range (codes "bytes=7-99") 10 ≡ ok last_three)
unfolding parse_request_range strip_prefix cut_at offset_of all_digits parse_int decimal_from
    resolve ◌-ℤ◌
parses = (refl, refl, refl)

refuses :
    (parse_request_range (codes "bytes=5-2") 10 ≡ err malformed)
    × (parse_request_range (codes "bytes=8") 10 ≡ err malformed)
    × (parse_request_range (codes "bytes=-") 10 ≡ err malformed)
    × (parse_request_range (codes "bytes=10-") 10 ≡ err invalid)
    × (parse_request_range (codes "bytes=-0") 10 ≡ err invalid)
    × (parse_request_range (codes "bytes=9223372036854775808-") 10 ≡ err malformed)
unfolding parse_request_range strip_prefix cut_at offset_of all_digits parse_int decimal_from
    resolve
refuses = (refl, refl, refl, refl, refl, refl)

parse_request_range-Asked_example :
    ((pos 0 ≤ℤ pos 3) × (pos 3 ≤ℤ pos 4)) ↔ Asked (side (codes "0")) (side (codes "4")) 10 3
unfolding all_digits decimal_from
parse_request_range-Asked_example =
    parse_request_range-Asked (codes "0") (codes "4") 10 3 {r = first_five} refl refl (omega arith)
      (omega arith) parses.0
