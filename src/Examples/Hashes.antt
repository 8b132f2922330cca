-- ===== src/Examples/Hashes.antt =====
-- A stored password hash, with a stand-in for scrypt.
use open_sec_dash.Prelude.{◌%◌, ◌≡◌, refl, true, false, some, [], ◌∷◌, ◌++◌, length, arith}
use open_sec_dash.Prelude.Text.{Text, codes}
use open_sec_dash.Passwords.{
  Bytes, Scrypt, hash_password, verify_password, password_needs_rehash, digest, stored_text, hex,
}
use open_sec_dash.Passwords.Codec.{AreBytes}
use open_sec_dash.Passwords.RoundTrip.{IsDigest, are_alike, verify_password-hash_password}

abbrev sixteen : Bytes
sixteen = 1 ∷ 2 ∷ 3 ∷ 4 ∷ 5 ∷ 6 ∷ 7 ∷ 8 ∷ 9 ∷ 10 ∷ 11 ∷ 12 ∷ 13 ∷ 14 ∷ 15 ∷ 16 ∷ []

-- It digests the length of the password.
abbrev lengths : Scrypt
lengths = record {
  encode = λ t. some t;
  scrypt = λ bytes salt n r p.
      some (
        (length bytes % 256) ∷ 0 ∷ 0 ∷ 0 ∷ 0 ∷ 0 ∷ 0 ∷ 0 ∷ 0 ∷ 0 ∷ 0 ∷ 0 ∷ 0 ∷ 0 ∷ 0 ∷ 0 ∷ sixteen);
}

abbrev stored : Text
stored =
    codes "scrypt$16384$8$5$0102030405060708090a0b0c0d0e0f10$"
    ++ codes "080000000000000000000000000000000102030405060708090a0b0c0d0e0f10"

hashed : hash_password lengths sixteen (codes "password") ≡ some stored
unfolding hash_password stored_text digest hex
hashed = refl

sixteen-AreBytes : AreBytes sixteen
unfolding AreBytes
sixteen-AreBytes = omega arith

lengths-IsDigest : IsDigest (digest lengths (codes "password") sixteen 16384 8 5)
unfolding IsDigest AreBytes digest
lengths-IsDigest = omega arith

verify_password-hash_password_example :
    (verify_password lengths (codes "password") (some stored) ≡ true)
    × (verify_password lengths (codes "secret") (some stored)
        ≡ are_alike lengths sixteen (codes "secret") (codes "password"))
    × (password_needs_rehash (some stored) ≡ false)
verify_password-hash_password_example =
    verify_password-hash_password lengths sixteen (codes "password") (codes "secret") stored
      lengths-IsDigest sixteen-AreBytes refl hashed
