-- ===== src/Passwords.antt =====
-- backend/app/services/auth.py: the text format of stored password hashes.
--
-- `hashlib.scrypt` and `str.encode` are the argument `Scrypt`, and a drawn salt is an argument. The
-- caught exceptions are `none`. `int` reads ASCII digits; no supported cost is negative, so that a
-- text with a minus sign is as good as none. The slots that bound concurrent hashing are left out.
pub mod Codec
pub mod RoundTrip
use open_sec_dash.Prelude.{
  ℕ, ◌+◌, ◌-◌, ◌*◌, ◌/◌, ◌%◌, ◌≡◌, ◌≤◌, ◌<◌, refl, Bool, true, false, not, ◌&&◌, ◌||◌, Option, none,
  some, List, [], ◌∷◌, ◌++◌, ◌==◌, nat_eq, contains, length, ltb, leb, if◌then◌else◌,
}
use open_sec_dash.Prelude.Text.{Text, text_eq, codes, split, strip}

abbrev pub Bytes : Type 0
Bytes = List ℕ

pub record Scrypt : Type 0 where
  pub encode : Text → Option Bytes
  -- password, salt, n, r and p; the digest has SCRYPT_DKLEN bytes
  pub scrypt : Bytes → Bytes → ℕ → ℕ → ℕ → Option Bytes

abbrev pub scrypt_n : ℕ
scrypt_n = 16384

abbrev pub scrypt_r : ℕ
scrypt_r = 8

abbrev pub scrypt_p : ℕ
scrypt_p = 5

abbrev pub scrypt_dklen : ℕ
scrypt_dklen = 32

abbrev pub is_legacy_cost : ℕ → ℕ → ℕ → Bool
is_legacy_cost n r p = n == 16384 && r == 8 && p == 1

-- (n, r, p) in _SUPPORTED_SCRYPT_COSTS
abbrev pub is_supported_cost : ℕ → ℕ → ℕ → Bool
is_supported_cost n r p = is_legacy_cost n r p || (n == scrypt_n && r == scrypt_r && p == scrypt_p)

abbrev pub hex_digit : ℕ → ℕ
hex_digit d = if ltb d 10 then b'0' + d else b'a' + d - 10

-- bytes.hex
unfoldable pub hex : Bytes → Text
hex [] = []
hex (b ∷ bs) = hex_digit (b / 16) ∷ hex_digit (b % 16) ∷ hex bs

abbrev pub is_digit : ℕ → Bool
is_digit c = leb b'0' c && leb c b'9'

pub from_hex_digit : ℕ → Option ℕ
from_hex_digit c =
    if is_digit c
    then some (c - b'0')
    else if leb b'a' c && leb c b'f'
    then some (c + 10 - b'a')
    else if leb b'A' c && leb c b'F'
    then some (c + 10 - b'A')
    else none

abbrev pub prepend_byte : Option ℕ → Option ℕ → Option Bytes → Option Bytes
prepend_byte (some h) (some l) (some bs) = some ((h * 16 + l) ∷ bs)
prepend_byte (some h) (some l) none = none
prepend_byte (some h) none bs = none
prepend_byte none l bs = none

-- ASCII's spaces, which `bytes.fromhex` skips before a byte
abbrev pub is_ascii_space : ℕ → Bool
is_ascii_space c = c == 32 || (leb 9 c && leb c 13)

-- bytes.fromhex
pub from_hex : Text → Option Bytes
from_hex [] = some []
from_hex (c ∷ []) = if is_ascii_space c then some [] else none
from_hex (c ∷ d ∷ s) =
    let skipped = from_hex (d ∷ s) in
    let read = prepend_byte (from_hex_digit c) (from_hex_digit d) (from_hex s) in
    if is_ascii_space c then skipped else read

-- Digits, each of which a single underscore may precede
pub int_digits : ℕ → Text → Option ℕ
int_digits n [] = some n
int_digits n (c ∷ []) = if is_digit c then some (n * 10 + (c - b'0')) else none
int_digits n (c ∷ d ∷ s) =
    let digit = int_digits (n * 10 + (c - b'0')) (d ∷ s) in
    let underscored = int_digits (n * 10 + (d - b'0')) s in
    if is_digit c then digit else if c == b'_' && is_digit d then underscored else none

first_digit : Text → Option ℕ
first_digit [] = none
first_digit (c ∷ s) = if is_digit c then int_digits 0 (c ∷ s) else none

unsigned : Text → Option ℕ
unfolding first_digit
unsigned [] = none
unsigned (c ∷ s) = if c == b'+' then first_digit s else first_digit (c ∷ s)

-- int(text), where it is not negative
pub int : Text → Option ℕ
unfolding unsigned
int text = unsigned (strip text)

-- hmac.compare_digest
abbrev pub same_digest : Option Bytes → Bytes → Bool
same_digest none expected = false
same_digest (some calculated) expected = calculated == expected

-- f"scrypt${SCRYPT_N}${SCRYPT_R}${SCRYPT_P}${salt.hex()}${password_hash.hex()}"
unfoldable pub stored_text : Bytes → Option Bytes → Option Text
stored_text salt none = none
stored_text salt (some password_hash) =
    some (codes "scrypt$16384$8$5$" ++ (hex salt ++ (b'$' ∷ hex password_hash)))

module _ (lib : Scrypt) where
  -- _scrypt(password.encode(), …)
  unfoldable pub digest : Text → Bytes → ℕ → ℕ → ℕ → Option Bytes
  digest password salt n r p = elim (lib.encode password) [
    | none ↦ none
    | some bytes ↦ lib.scrypt bytes salt n r p
  ]

  unfoldable pub hash_password : Bytes → Text → Option Text
  hash_password salt password = stored_text salt (digest password salt scrypt_n scrypt_r scrypt_p)

  verify_bytes : Text → ℕ → ℕ → ℕ → Option Bytes → Option Bytes → Bool
  verify_bytes password n r p (some salt) (some expected_hash) =
      length salt == 16
      && length expected_hash == scrypt_dklen
      && same_digest (digest password salt n r p) expected_hash
  verify_bytes password n r p (some salt) none = false
  verify_bytes password n r p none expected_hash = false

  verify_cost : Text → Option ℕ → Option ℕ → Option ℕ → Text → Text → Bool
  verify_cost password (some n) (some r) (some p) salt_hex hash_hex =
      is_supported_cost n r p && verify_bytes password n r p (from_hex salt_hex) (from_hex hash_hex)
  verify_cost password (some n) (some r) none salt_hex hash_hex = false
  verify_cost password (some n) none p salt_hex hash_hex = false
  verify_cost password none r p salt_hex hash_hex = false

  -- The six parts of a stored hash; any other number of them is a ValueError.
  pub verify_parts : Text → List Text → Bool
  unfolding verify_cost verify_bytes
  verify_parts password (algorithm ∷ n ∷ r ∷ p ∷ salt_hex ∷ hash_hex ∷ []) =
      algorithm == codes "scrypt" && verify_cost password (int n) (int r) (int p) salt_hex hash_hex
  verify_parts password parts = false

  pub verify_password : Text → Option Text → Bool
  verify_password password none = false
  verify_password password (some stored) = verify_parts password (split b'$' stored)

is_legacy : Option ℕ → Option ℕ → Option ℕ → Bool
is_legacy (some n) (some r) (some p) = is_legacy_cost n r p
is_legacy (some n) (some r) none = false
is_legacy (some n) none p = false
is_legacy none r p = false

pub rehash_parts : List Text → Bool
unfolding is_legacy
rehash_parts (algorithm ∷ n ∷ r ∷ p ∷ salt_hex ∷ hash_hex ∷ []) =
    algorithm == codes "scrypt" && is_legacy (int n) (int r) (int p)
rehash_parts parts = false

pub password_needs_rehash : Option Text → Bool
password_needs_rehash none = false
password_needs_rehash (some stored) = rehash_parts (split b'$' stored)

int_runs : int (codes " +16_384 ") ≡ some 16384
unfolding int strip int_digits
int_runs = refl

from_hex_runs : from_hex (codes "0a Ff") ≡ some (10 ∷ 255 ∷ [])
unfolding from_hex from_hex_digit
from_hex_runs = refl
