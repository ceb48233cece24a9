-- ===== src/Tests/Go.antt =====
-- The parts of Go's library on inputs with a known result.
use cwmp_acs_go.Prelude.{[], ◌∷◌, none, some, true, ◌≡◌, refl}
use cwmp_acs_go.Prelude.Int.{pos, negsuc}
use cwmp_acs_go.Go.Text.{split, trim_space, has_suffix, after_last}
use cwmp_acs_go.Go.Strconv.{atoi, itoa, ok, syntax, range}
use cwmp_acs_go.Go.Regexp.{array_count}
use cwmp_acs_go.Go.Scan.{scan_version}

split_keeps_empty_fields : split "," " 1.0,1.2 ,," ≡ " 1.0" ∷ "1.2 " ∷ "" ∷ "" ∷ []
unfolding split
split_keeps_empty_fields = refl

trim_space_both_ends : trim_space "  a b \n" ≡ "a b"
unfolding trim_space
trim_space_both_ends = refl

has_suffix_of_path : has_suffix "Device.A.B" ".B" ≡ true
unfolding has_suffix
has_suffix_of_path = refl

after_last_colon : after_last ":" "a:b:c" ≡ some "c"
unfolding after_last
after_last_colon = refl

atoi_negative : atoi "-120" ≡ ok (negsuc 119)
unfolding atoi
atoi_negative = refl

atoi_beyond_int64 : atoi "9223372036854775808" ≡ range
unfolding atoi
atoi_beyond_int64 = refl

atoi_sign_alone : atoi "+" ≡ syntax
unfolding atoi
atoi_sign_alone = refl

itoa_negative : itoa (negsuc 8001) ≡ "-8002"
unfolding itoa
itoa_negative = refl

atoi_with_letter : atoi "12a" ≡ syntax
unfolding atoi
atoi_with_letter = refl

array_count_twelve : array_count "EventStruct" "cwmp:EventStruct[12]" ≡ some "12"
unfolding array_count
array_count_twelve = refl

array_count_empty : array_count "EventStruct" "cwmp:EventStruct[]" ≡ none
unfolding array_count
array_count_empty = refl

array_count_no_prefix : array_count "EventStruct" ":EventStruct[1]" ≡ none
unfolding array_count
array_count_no_prefix = refl

array_count_trailing_bracket : array_count "EventStruct" "a:EventStruct[1]]" ≡ none
unfolding array_count
array_count_trailing_bracket = refl

scan_version_plain : scan_version "1.4" ≡ some (pos 1, pos 4)
unfolding scan_version
scan_version_plain = refl

scan_version_letter : scan_version "1.x" ≡ none
unfolding scan_version
scan_version_letter = refl

scan_version_signs_and_tail : scan_version "+1. -03beta" ≡ some (pos 1, negsuc 2)
unfolding scan_version
scan_version_signs_and_tail = refl
