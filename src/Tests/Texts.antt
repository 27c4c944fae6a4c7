-- ===== src/Tests/Texts.antt =====
-- Texts that are trimmed and numbers that are printed.
use found_roll.Prelude.{◌≡◌, refl, strip, decimal}

strip_spaces : strip "  a b\n" ≡ "a b"
unfolding strip
strip_spaces = refl

decimal_digits : decimal 1203 ≡ "1203"
unfolding decimal
decimal_digits = refl
