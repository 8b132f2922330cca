-- ===== src/Passwords/Codec.antt =====
-- Hexadecimal text is read back, and a stored hash is split at its signs.
use open_sec_dash.Prelude.{
  ℕ, ◌+◌, ◌*◌, ◌/◌, ◌%◌, ◌≡◌, ◌<◌, refl, false, some, [], ◌∷◌, ◌++◌, ◌==◌, nat_eq, any, arith,
}
use open_sec_dash.Prelude.Text.{Text, split}
use open_sec_dash.Passwords.{Bytes, hex_digit, hex, is_ascii_space, from_hex_digit, from_hex}

unfoldable pub AreBytes : Bytes → Type 0
AreBytes [] = Unit
AreBytes (b ∷ bs) = (b < 256) × AreBytes bs

from_hex_digit-hex_digit : (d : ℕ) → d < 16 → from_hex_digit (hex_digit d) ≡ some d
unfolding from_hex_digit
from_hex_digit-hex_digit d h = ground arith

hex_digit_plain :
    (d : ℕ) → d < 16 → (is_ascii_space (hex_digit d) ≡ false) × ((hex_digit d == b'$') ≡ false)
hex_digit_plain d h = (ground arith, ground arith)

pub from_hex-hex : (bs : Bytes) → AreBytes bs → from_hex (hex bs) ≡ some bs
unfolding from_hex hex AreBytes
from_hex-hex [] h = refl
from_hex-hex (b ∷ bs) (h, hs) =
    let value : b / 16 * 16 + b % 16 ≡ b = omega arith in
    rw
      (
        (hex_digit_plain (b / 16) (omega arith)).0,
        from_hex_digit-hex_digit (b / 16) (omega arith),
        from_hex_digit-hex_digit (b % 16) (omega arith),
        from_hex-hex bs hs,
      )
      (rw value refl)

hex_plain : (bs : Bytes) → AreBytes bs → any (λ c. c == b'$') (hex bs) ≡ false
unfolding hex AreBytes
hex_plain [] h = refl
hex_plain (b ∷ bs) (h, hs) =
    rw
      (
        (hex_digit_plain (b / 16) (omega arith)).1,
        (hex_digit_plain (b % 16) (omega arith)).1,
        hex_plain bs hs,
      )
      refl

split_last : (part : Text) → any (λ c. c == b'$') part ≡ false → split b'$' part ≡ part ∷ []
unfolding split
split_last [] h = refl
split_last (c ∷ part) h = ground (arith, split_last part)

split-append :
    (part rest : Text)
    → any (λ c. c == b'$') part ≡ false
    → split b'$' (part ++ (b'$' ∷ rest)) ≡ part ∷ split b'$' rest
unfolding split
split-append [] rest h = refl
split-append (c ∷ part) rest h = ground (arith, split-append part rest)

-- Two hexadecimal parts
pub split-hex :
    (salt password_hash : Bytes)
    → AreBytes salt
    → AreBytes password_hash
    → split b'$' (hex salt ++ (b'$' ∷ hex password_hash)) ≡ hex salt ∷ hex password_hash ∷ []
split-hex salt password_hash s p =
    rw
      (
        split-append (hex salt) (hex password_hash) (hex_plain salt s),
        split_last (hex password_hash) (hex_plain password_hash p),
      )
      refl
