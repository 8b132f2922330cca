-- ===== src/Crowdsec/Asn.antt =====
-- plugins/crowdsec/services/policies.py: the normal form of an ASN, and the scenario of its ban.
--
-- Digits and letters are ASCII's; `none` is the ValueError.
use open_sec_dash.Prelude.{
  ◌≡◌, refl, ℕ, zero, suc, ◌+◌, ◌-◌, ◌*◌, ◌/◌, ◌%◌, ◌&&◌, ◌||◌, Option, none, some, [], ◌∷◌, ◌++◌,
  ◌==◌, nat_eq, ltb, leb, if◌then◌else◌,
}
use open_sec_dash.Prelude.Text.{Text, codes, strip, upper}

abbrev pub asn_max : ℕ
asn_max = 4294967295

-- `text[2:]` where the text starts with "AS".
unfoldable pub without_as : Text → Text
without_as [] = []
without_as (a ∷ []) = a ∷ []
without_as (a ∷ b ∷ s) = if a == b'A' && b == b'S' then s else a ∷ b ∷ s

-- `int` of a text of digits, after the digits that gave `n`.
unfoldable pub digits_after : ℕ → Text → Option ℕ
digits_after n [] = some n
digits_after n (c ∷ s) =
    let rest = digits_after (n * 10 + (c - b'0')) s in
    if leb b'0' c && leb c b'9' then rest else none

-- `isdigit` and `int` together: the empty text has no digit.
unfoldable pub read_number : Text → Option ℕ
read_number [] = none
read_number (c ∷ s) = digits_after 0 (c ∷ s)

-- The decimal digits of a number, of which there are at most as many as the fuel.
unfoldable pub decimal : ℕ → ℕ → Text
decimal zero n = []
decimal (suc fuel) n =
    let rest = decimal fuel (n / 10) in
    if ltb n 10 then (b'0' + n) ∷ [] else rest ++ (b'0' + n % 10) ∷ []

-- f"AS{number}": no number up to `asn_max` has more than ten digits.
abbrev pub show_asn : ℕ → Text
show_asn number = b'A' ∷ b'S' ∷ decimal 10 number

in_range : Option ℕ → Option Text
in_range none = none
in_range (some number) = if number == 0 || ltb asn_max number then none else some (show_asn number)

unfoldable pub normalize_asn : Text → Option Text
unfolding in_range
normalize_asn value = in_range (read_number (without_as (upper (strip value))))

abbrev pub policy_scenario_prefix : Text
policy_scenario_prefix = codes "opensecdash/manual-permanent-asn-ban/"

abbrev prefixed : Option Text → Option Text
prefixed none = none
prefixed (some asn) = some (policy_scenario_prefix ++ asn)

unfoldable pub policy_scenario : Text → Option Text
policy_scenario asn = prefixed (normalize_asn asn)

normalize_asn_runs : normalize_asn (codes " as0064500 ") ≡ some (codes "AS64500")
unfolding normalize_asn read_number without_as upper strip decimal digits_after
normalize_asn_runs = refl
