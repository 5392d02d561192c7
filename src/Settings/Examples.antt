-- ===== src/Settings/Examples.antt =====
-- The settings on concrete stored texts.
use sdr_plugin_txlink_wsjt_x.Base.{◌≡◌, refl, pos, negsuc, codes}
use sdr_plugin_txlink_wsjt_x.Settings.{
  value, out_of_range, stoi, leading_digits, parse_positive, parse_negative, parse_sign,
}

stoi_450 : stoi (codes "450") ≡ value (pos 450)
unfolding stoi parse_sign parse_positive leading_digits
stoi_450 = refl

stoi_250 : stoi (codes "250") ≡ value (pos 250)
unfolding stoi parse_sign parse_positive leading_digits
stoi_250 = refl

stoi_negative : stoi (codes " -12ms") ≡ value (negsuc 11)
unfolding stoi parse_sign parse_negative leading_digits
stoi_negative = refl

stoi_too_large : stoi (codes "2147483648") ≡ out_of_range
unfolding stoi parse_sign parse_positive leading_digits
stoi_too_large = refl
