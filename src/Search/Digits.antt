-- ===== src/Search/Digits.antt =====
-- What Python's `str.isdigit` and `int` accept, as far as `search_term_condition` of
-- backend/app/services/events.py uses them: digits of Unicode 16, and `int`'s limit on their number.
use open_sec_dash.Prelude.{
  ℕ, ◌+◌, Bool, not, ◌&&◌, ◌||◌, List, [], ◌∷◌, any, leb, ltb, length, is_empty,
}
use open_sec_dash.Prelude.Text.{Text}

-- The zeros of the runs of ten decimal digits
decimal_zeros : List ℕ
decimal_zeros =
    0x30 ∷ 0x660 ∷ 0x6f0 ∷ 0x7c0 ∷ 0x966 ∷ 0x9e6 ∷ 0xa66 ∷ 0xae6 ∷ 0xb66 ∷ 0xbe6 ∷ 0xc66 ∷ 0xce6
    ∷ 0xd66 ∷ 0xde6 ∷ 0xe50 ∷ 0xed0 ∷ 0xf20 ∷ 0x1040 ∷ 0x1090 ∷ 0x17e0 ∷ 0x1810 ∷ 0x1946 ∷ 0x19d0
    ∷ 0x1a80 ∷ 0x1a90 ∷ 0x1b50 ∷ 0x1bb0 ∷ 0x1c40 ∷ 0x1c50 ∷ 0xa620 ∷ 0xa8d0 ∷ 0xa900 ∷ 0xa9d0
    ∷ 0xa9f0 ∷ 0xaa50 ∷ 0xabf0 ∷ 0xff10 ∷ 0x104a0 ∷ 0x10d30 ∷ 0x10d40 ∷ 0x11066 ∷ 0x110f0 ∷ 0x11136
    ∷ 0x111d0 ∷ 0x112f0 ∷ 0x11450 ∷ 0x114d0 ∷ 0x11650 ∷ 0x116c0 ∷ 0x116d0 ∷ 0x116da ∷ 0x11730
    ∷ 0x118e0 ∷ 0x11950 ∷ 0x11bf0 ∷ 0x11c50 ∷ 0x11d50 ∷ 0x11da0 ∷ 0x11f50 ∷ 0x16130 ∷ 0x16a60
    ∷ 0x16ac0 ∷ 0x16b50 ∷ 0x16d70 ∷ 0x1ccf0 ∷ 0x1d7ce ∷ 0x1d7d8 ∷ 0x1d7e2 ∷ 0x1d7ec ∷ 0x1d7f6
    ∷ 0x1e140 ∷ 0x1e2f0 ∷ 0x1e4f0 ∷ 0x1e5f1 ∷ 0x1e950 ∷ 0x1fbf0 ∷ []

-- The first and the last of the runs of digits that are not decimal, as superscripts
other_digits : List (ℕ × ℕ)
other_digits =
    (0xb2, 0xb3)
    ∷ (0xb9, 0xb9)
    ∷ (0x1369, 0x1371)
    ∷ (0x19da, 0x19da)
    ∷ (0x2070, 0x2070)
    ∷ (0x2074, 0x2079)
    ∷ (0x2080, 0x2089)
    ∷ (0x2460, 0x2468)
    ∷ (0x2474, 0x247c)
    ∷ (0x2488, 0x2490)
    ∷ (0x24ea, 0x24ea)
    ∷ (0x24f5, 0x24fd)
    ∷ (0x24ff, 0x24ff)
    ∷ (0x2776, 0x277e)
    ∷ (0x2780, 0x2788)
    ∷ (0x278a, 0x2792)
    ∷ (0x10a40, 0x10a43)
    ∷ (0x10e60, 0x10e68)
    ∷ (0x11052, 0x1105a)
    ∷ (0x1f100, 0x1f10a)
    ∷ []

unfoldable pub is_decimal : ℕ → Bool
unfolding decimal_zeros
is_decimal c = any (λ zero_digit. leb zero_digit c && ltb c (zero_digit + 10)) decimal_zeros

-- A character that `str.isdigit` accepts
unfoldable pub is_digit : ℕ → Bool
unfolding is_decimal other_digits
is_digit c = is_decimal c || any (λ run. leb run.0 c && leb c run.1) other_digits

-- `sys.get_int_max_str_digits()`
abbrev int_max_str_digits : ℕ
int_max_str_digits = 4300

-- token.isdigit()
unfoldable pub all_digits : Text → Bool
unfolding is_digit
all_digits token = not (is_empty token) && not (any (λ c. not (is_digit c)) token)

-- `int(token)` raises ValueError, for digits.
unfoldable pub int_fails : Text → Bool
unfolding is_decimal
int_fails token = any (λ c. not (is_decimal c)) token || ltb int_max_str_digits (length token)
