-- ===== src/Proxy/Addresses.antt =====
-- backend/app/web/proxy_headers.py, `_client_from_x_forwarded_for`: which of the forwarded addresses
-- is the client's.
use open_sec_dash.Prelude.{
  ◌≡◌, refl, ap, subst, ◌⊎◌, inl, inr, Bool, true, false, Option, none, some, List, [], ◌∷◌, ◌++◌,
  Option-cases, if◌then◌else◌, arith,
}
use open_sec_dash.Prelude.Text.{Text, split}
use open_sec_dash.Proxy.{
  Ip, is_trusted_address, ip_addresses, last_untrusted, client_from_addresses,
  client_from_x_forwarded_for,
}

module _ {Address Network : Type 0} (ip : Ip Address Network)
    (trusted : Option (List Network)) where
  abbrev own_host : Address → Option Text
  own_host a = if is_trusted_address ip (ip.to_text a) trusted then none else some (ip.to_text a)

  unfoldable pub all_trusted : List Address → Bool
  all_trusted [] = true
  all_trusted (a ∷ addresses) =
      let rest = all_trusted addresses in
      if is_trusted_address ip (ip.to_text a) trusted then rest else false

  -- `host` is the last address that is not trusted.
  unfoldable pub IsLastUntrusted : List Address → Text → Type 0
  IsLastUntrusted addresses host =
      (nearer : List Address) × (a : Address) × (farther : List Address) × (addresses
        ≡ nearer ++ (a ∷ farther))
      × (ip.to_text a ≡ host)
      × (is_trusted_address ip host trusted ≡ false)
      × (all_trusted farther ≡ true)

  unfoldable pub IsFirst : List Address → Text → Type 0
  IsFirst addresses host =
      (a : Address) × (farther : List Address) × (addresses ≡ a ∷ farther) × (ip.to_text a ≡ host)

  all_trusted-none :
      (addresses : List Address)
      → last_untrusted ip trusted addresses ≡ none
      → all_trusted addresses ≡ true
  unfolding last_untrusted all_trusted
  all_trusted-none [] e = refl
  all_trusted-none (a ∷ addresses) e = elim (Option-cases (last_untrusted ip trusted addresses)) [
    | inl f ↦ ground (arith, all_trusted-none addresses f)
    | inr (host, f) ↦ absurd (ground arith)
  ]

  own_host-IsLastUntrusted :
      (a : Address) (addresses : List Address) (host : Text)
      → all_trusted addresses ≡ true
      → own_host a ≡ some host
      → IsLastUntrusted (a ∷ addresses) host
  unfolding IsLastUntrusted
  own_host-IsLastUntrusted a addresses host rest own =
      let same : ip.to_text a ≡ host = ground arith in
      let refused : is_trusted_address ip (ip.to_text a) trusted ≡ false = ground arith in
      (
        [],
        a,
        addresses,
        refl,
        same,
        subst (λ h. is_trusted_address ip h trusted ≡ false) same refused,
        rest,
      )

  last_untrusted-IsLastUntrusted :
      (addresses : List Address) (host : Text)
      → last_untrusted ip trusted addresses ≡ some host
      → IsLastUntrusted addresses host
  unfolding last_untrusted IsLastUntrusted
  last_untrusted-IsLastUntrusted [] host e = absurd (ground arith)
  last_untrusted-IsLastUntrusted (a ∷ addresses) host e =
      elim (Option-cases (last_untrusted ip trusted addresses)) [
        | inl f ↦
            own_host-IsLastUntrusted a addresses host (all_trusted-none addresses f) (ground arith)
        | inr (other, f) ↦
            let (nearer, b, farther, parts, same, refused, rest) =
              last_untrusted-IsLastUntrusted addresses host (ground arith) in
            (a ∷ nearer, b, farther, ap (λ l. a ∷ l) parts, same, refused, rest)
      ]

  client_from_addresses-IsLastUntrusted :
      (addresses : List Address) (host : Text)
      → client_from_addresses ip trusted (some addresses) ≡ some host
      → IsLastUntrusted addresses host ⊎ ((all_trusted addresses ≡ true) × IsFirst addresses host)
  unfolding client_from_addresses IsFirst
  client_from_addresses-IsLastUntrusted [] host e = absurd (ground arith)
  client_from_addresses-IsLastUntrusted (a ∷ addresses) host e =
      elim (Option-cases (last_untrusted ip trusted (a ∷ addresses))) [
        | inl f ↦ inr (all_trusted-none (a ∷ addresses) f, (a, addresses, refl, ground arith))
        | inr (other, f) ↦ inl (last_untrusted-IsLastUntrusted (a ∷ addresses) host (ground arith))
      ]

  -- The client that an X-Forwarded-For header names comes from a header whose entries are all
  -- addresses: it is the last of them that is not trusted, so that every hop behind it is trusted,
  -- or, where all of them are trusted, the first.
  pub client_from_x_forwarded_for-IsLastUntrusted :
      (value host : Text)
      → client_from_x_forwarded_for ip value trusted ≡ some host
      → (addresses : List Address) × (ip_addresses ip (split b',' value) ≡ some addresses)
        × (IsLastUntrusted addresses host
            ⊎ ((all_trusted addresses ≡ true) × IsFirst addresses host))
  unfolding client_from_x_forwarded_for client_from_addresses
  client_from_x_forwarded_for-IsLastUntrusted value host e =
      elim (Option-cases (ip_addresses ip (split b',' value))) [
        | inl f ↦ absurd (ground arith)
        | inr (addresses, f) ↦ (
          addresses,
          f,
          client_from_addresses-IsLastUntrusted addresses host
              (subst (λ o. client_from_addresses ip trusted o ≡ some host) f e),
        )
      ]
