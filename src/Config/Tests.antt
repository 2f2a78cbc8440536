-- ===== src/Config/Tests.antt =====
-- Environments for the tests of internal/config.go.
use poly_balance.Base.{
  arith, String, Option, none, ℤ, pos, negsuc, [], ◌∷◌, ◌≡◌, refl, str_eq, if◌then◌else◌,
}
use poly_balance.Config.RoundTrip.{parse_int_csv-print}
use poly_balance.Text.{decimal, itoa, itoa_fuel, atoi, split_comma, trim_space}
use poly_balance.Config.{load_config, parse_csv, parse_int_csv, int_or_one}
use poly_balance.Config.Bounds.{Loaded, load_config-Loaded}

abbrev two_backends : String → String
two_backends key =
    if str_eq key "LB_BACKENDS"
    then "http://a, http://b"
    else if str_eq key "LB_WEIGHTS"
    then "3,x"
    else ""

abbrev no_durations : String → Option ℤ
no_durations s = none

load_config-Loaded_example : Loaded two_backends (load_config two_backends no_durations)
load_config-Loaded_example = load_config-Loaded two_backends no_durations

weights :
    parse_int_csv "3,x, -2 ,+7,9223372036854775808" ≡ pos 3 ∷ pos 1 ∷ negsuc 1 ∷ pos 7 ∷ pos 1 ∷ []
unfolding parse_int_csv int_or_one atoi split_comma trim_space
weights = refl

urls : parse_csv "http://a, http://b" ≡ "http://a" ∷ "http://b" ∷ []
unfolding parse_csv split_comma trim_space
urls = refl

parse_int_csv-print_example :
    parse_int_csv "3,-2,9223372036854775807" ≡ pos 3 ∷ negsuc 1 ∷ pos 9223372036854775807 ∷ []
unfolding decimal itoa itoa_fuel
parse_int_csv-print_example =
    parse_int_csv-print (pos 3 ∷ negsuc 1 ∷ pos 9223372036854775807 ∷ [])
      (omega arith, (omega arith, (omega arith, tt)))
