-- ===== src/Names/Tests.antt =====
-- Names that pass and names that do not.
use yig.Prelude.{◌≡◌, refl, true, false, codes}
use yig.Names.{
  split, has_octet, is_octet, atoi, digits_value, is_valid_bucket_name, valid_bucket, ends_well,
  has_two_dots, all_allowed, is_allowed, is_one_of,
}

accepted : is_valid_bucket_name (codes "my-bucket.v1") ≡ true
unfolding is_valid_bucket_name valid_bucket ends_well has_two_dots split has_octet is_octet atoi
    digits_value
accepted = refl

refused :
    (is_valid_bucket_name (codes "ab") ≡ false)
    × (is_valid_bucket_name (codes "a..b") ≡ false)
    × (is_valid_bucket_name (codes "-ab") ≡ false)
    × (is_valid_bucket_name (codes "10.0.0.1") ≡ false)
unfolding is_valid_bucket_name valid_bucket ends_well has_two_dots split has_octet is_octet atoi
    digits_value
refused = (refl, refl, refl, refl)

-- The sign is allowed of all the special characters.
at_sign : all_allowed (codes "a@b") ≡ true
unfolding all_allowed is_allowed is_one_of
at_sign = refl

last_octet : is_octet (codes "1") ≡ true
unfolding is_octet atoi digits_value
last_octet = refl
