-- ===== src/Base/Samples.antt =====
-- Tests of the texts of Base/Text.
use mathlib.Core.Path.{◌≡◌, refl}
use litehive.Base.Text.{lit, decimal, split_join}

decimal_1207 : decimal 1207 ≡ lit "1207"
unfolding decimal lit
decimal_1207 = refl

split_join_spaces : split_join (lit "  a  bc\td ") ≡ lit "a bc d"
unfolding split_join lit
split_join_spaces = refl
