-- ===== src/Passwords/RoundTrip.antt =====
-- A stored hash is read back as it was written.
use open_sec_dash.Prelude.{
  ◌≡◌, refl, ap, Bool, true, false, Option, none, some, List, [], ◌∷◌, ◌++◌, length, beq_refl,
  arith, ◌∙◌, nat_eq,
}
use open_sec_dash.Prelude.Text.{Text, text_eq, codes, split, strip, is_space}
use open_sec_dash.Passwords.{
  Bytes, Scrypt, scrypt_n, scrypt_r, scrypt_p, scrypt_dklen, hex, int, int_digits, digest,
  same_digest, stored_text, hash_password, verify_parts, verify_password, rehash_parts,
  password_needs_rehash,
}
use open_sec_dash.Passwords.Codec.{AreBytes, from_hex-hex, split-hex}

-- A digest of `scrypt` is `dklen` bytes long.
unfoldable pub IsDigest : Option Bytes → Type 0
IsDigest none = Unit
IsDigest (some bytes) = AreBytes bytes × (length bytes ≡ scrypt_dklen)

abbrev parts : Bytes → Bytes → List Text
parts salt password_hash =
    codes "scrypt" ∷ codes "16384" ∷ codes "8" ∷ codes "5" ∷ hex salt ∷ hex password_hash ∷ []

split-stored :
    (salt password_hash : Bytes)
    → AreBytes salt
    → AreBytes password_hash
    → split b'$' (codes "scrypt$16384$8$5$" ++ (hex salt ++ (b'$' ∷ hex password_hash)))
      ≡ parts salt password_hash
unfolding split
split-stored salt password_hash s p =
    ap (λ rest. codes "scrypt" ∷ codes "16384" ∷ codes "8" ∷ codes "5" ∷ rest)
      (split-hex salt password_hash s p)

-- Two calls of scrypt that return the same
pub same_digests : Option Bytes → Option Bytes → Bool
same_digests calculated none = false
same_digests calculated (some expected) = same_digest calculated expected

stored_text-eq :
    (salt : Bytes) (o : Option Bytes) (stored : Text)
    → IsDigest o
    → stored_text salt o ≡ some stored
    → (password_hash : Bytes) × (o ≡ some password_hash)
      × (codes "scrypt$16384$8$5$" ++ (hex salt ++ (b'$' ∷ hex password_hash)) ≡ stored)
      × AreBytes password_hash
      × (length password_hash ≡ scrypt_dklen)
unfolding stored_text IsDigest
stored_text-eq salt none stored d h = absurd (ground (arith, h))
stored_text-eq salt (some password_hash) stored d h =
    (password_hash, refl, ground (arith, h), d.0, d.1)

module _ (lib : Scrypt) where
  verify_parts-parts :
      (salt password_hash : Bytes) (password : Text)
      → AreBytes salt
      → AreBytes password_hash
      → length salt ≡ 16
      → length password_hash ≡ scrypt_dklen
      → verify_parts lib password (parts salt password_hash)
        ≡ same_digest (digest lib password salt scrypt_n scrypt_r scrypt_p) password_hash
  unfolding verify_parts int int_digits strip is_space
  verify_parts-parts salt password_hash password s p ls lp =
      rw (from_hex-hex salt s, from_hex-hex password_hash p, ls, lp) refl

  -- Whether two passwords have the same digest under a salt
  pub are_alike : Bytes → Text → Text → Bool
  are_alike salt a b =
      same_digests (digest lib a salt scrypt_n scrypt_r scrypt_p)
        (digest lib b salt scrypt_n scrypt_r scrypt_p)

  verify_password-stored :
      (salt password_hash : Bytes) (password guess stored : Text)
      → digest lib password salt scrypt_n scrypt_r scrypt_p ≡ some password_hash
      → codes "scrypt$16384$8$5$" ++ (hex salt ++ (b'$' ∷ hex password_hash)) ≡ stored
      → AreBytes salt
      → length salt ≡ 16
      → AreBytes password_hash
      → length password_hash ≡ scrypt_dklen
      → (verify_password lib password (some stored) ≡ true)
        × (verify_password lib guess (some stored) ≡ are_alike salt guess password)
        × (password_needs_rehash (some stored) ≡ false)
  unfolding are_alike same_digests verify_password password_needs_rehash rehash_parts int int_digits
      strip is_space
  verify_password-stored salt password_hash password guess stored e text s ls p lp =
      let six : split b'$' stored ≡ parts salt password_hash =
        rw (← text) (split-stored salt password_hash s p) in
      (
        rw six (
            verify_parts-parts salt password_hash password s p ls lp
            ∙ rw e (beq_refl password_hash)),
        rw six (verify_parts-parts salt password_hash guess s p ls lp ∙ (rw e refl)),
        rw six refl,
      )

  -- Where scrypt gives 32 bytes for a password, its stored hash under a salt of 16 bytes verifies the
  -- password itself, and another one exactly when scrypt gives the same digest for both. The stored hash
  -- has the current cost and asks for no new hash.
  pub verify_password-hash_password :
      (salt : Bytes) (password guess stored : Text)
      → IsDigest (digest lib password salt scrypt_n scrypt_r scrypt_p)
      → AreBytes salt
      → length salt ≡ 16
      → hash_password lib salt password ≡ some stored
      → (verify_password lib password (some stored) ≡ true)
        × (verify_password lib guess (some stored) ≡ are_alike salt guess password)
        × (password_needs_rehash (some stored) ≡ false)
  unfolding hash_password
  verify_password-hash_password salt password guess stored d s ls h =
      let (password_hash, e, text, p, lp) =
        stored_text-eq salt (digest lib password salt scrypt_n scrypt_r scrypt_p) stored d h in
      verify_password-stored salt password_hash password guess stored e text s ls p lp
