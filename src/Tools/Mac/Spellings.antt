-- ===== src/Tools/Mac/Spellings.antt =====
-- The spellings of a MAC address that IsValidUnicastMAC of pkg/tools/tools.go reads alike.
use topohub.Common.{
  ℕ, ◌+◌, ◌*◌, ◌≡◌, refl, false, some, List, [], ◌∷◌, arith, ◌==◌, Text, replace_all, contains, ap,
  ◌<◌, length, map, ◌%◌,
}
use topohub.Net.Parse.{hex_value}
use topohub.Tools.Mac.{insert_colons, is_valid_unicast_mac}
use topohub.Net.Mac.{colon_bytes, parse_mac}

-- Two hexadecimal digits with their values.
pub record Pair : Type 0 where
  pub high : ℕ
  pub low : ℕ
  pub high_value : ℕ
  pub low_value : ℕ
  pub high_hex : hex_value high ≡ some high_value
  pub low_hex : hex_value low ≡ some low_value

abbrev pub byte_value : Pair → ℕ
byte_value p = p.high_value * 16 + p.low_value

-- the digits with `sep` between the pairs
abbrev pub spell : ℕ → List Pair → Text
spell sep [] = []
spell sep (p ∷ []) = p.high ∷ p.low ∷ []
spell sep (p ∷ q ∷ ps) = p.high ∷ p.low ∷ sep ∷ spell sep (q ∷ ps)

abbrev pub plain : List Pair → Text
plain [] = []
plain (p ∷ ps) = p.high ∷ p.low ∷ plain ps

hex_digit : (c v : ℕ) → hex_value c ≡ some v → ((c == b':') ≡ false) × ((c == b'-') ≡ false)
unfolding hex_value
hex_digit c v h = (ground arith, ground arith)

replace_all-spell : (ps : List Pair) → replace_all b'-' b':' (spell b'-' ps) ≡ spell b':' ps
unfolding replace_all
replace_all-spell [] = refl
replace_all-spell (p ∷ []) =
    ground (arith, hex_digit p.high p.high_value p.high_hex, hex_digit p.low p.low_value p.low_hex)
replace_all-spell (p ∷ q ∷ ps) = ground (
  arith,
  hex_digit p.high p.high_value p.high_hex,
  hex_digit p.low p.low_value p.low_hex,
  replace_all-spell (q ∷ ps),
)

replace_all-plain : (ps : List Pair) → replace_all b'-' b':' (plain ps) ≡ plain ps
unfolding replace_all
replace_all-plain [] = refl
replace_all-plain (p ∷ ps) = ground (
  arith,
  hex_digit p.high p.high_value p.high_hex,
  hex_digit p.low p.low_value p.low_hex,
  replace_all-plain ps,
)

replace_all-colons : (ps : List Pair) → replace_all b'-' b':' (spell b':' ps) ≡ spell b':' ps
unfolding replace_all
replace_all-colons [] = refl
replace_all-colons (p ∷ []) =
    ground (arith, hex_digit p.high p.high_value p.high_hex, hex_digit p.low p.low_value p.low_hex)
replace_all-colons (p ∷ q ∷ ps) = ground (
  arith,
  hex_digit p.high p.high_value p.high_hex,
  hex_digit p.low p.low_value p.low_hex,
  replace_all-colons (q ∷ ps),
)

contains-plain : (ps : List Pair) → contains b':' (plain ps) ≡ false
unfolding contains
contains-plain [] = refl
contains-plain (p ∷ ps) = ground (
  arith,
  hex_digit p.high p.high_value p.high_hex,
  hex_digit p.low p.low_value p.low_hex,
  contains-plain ps,
)

-- From an even index other than 0 on, every pair gets its colon.
colons_before : List Pair → Text
colons_before [] = []
colons_before (p ∷ ps) = b':' ∷ p.high ∷ p.low ∷ colons_before ps

insert_colons-even :
    (i : ℕ) (ps : List Pair) → 0 < i → i % 2 ≡ 0 → insert_colons i (plain ps) ≡ colons_before ps
unfolding insert_colons colons_before
insert_colons-even i [] h e = refl
insert_colons-even i (p ∷ ps) h e = ground (arith, insert_colons-even (i + 1 + 1) ps)

spell-colons_before :
    (p : Pair) (ps : List Pair) → p.high ∷ p.low ∷ colons_before ps ≡ spell b':' (p ∷ ps)
unfolding colons_before
spell-colons_before p [] = refl
spell-colons_before p (q ∷ ps) =
    ap (λ (t : Text). p.high ∷ p.low ∷ b':' ∷ t) (spell-colons_before q ps)

insert_colons-plain :
    (p : Pair) (ps : List Pair) → insert_colons 0 (plain (p ∷ ps)) ≡ spell b':' (p ∷ ps)
unfolding insert_colons
insert_colons-plain p ps =
    rw (insert_colons-even 2 ps (omega arith) refl) (spell-colons_before p ps)

colon_bytes-spell :
    (sep : ℕ) (p : Pair) (ps : List Pair)
    → colon_bytes sep (length (p ∷ ps)) (spell sep (p ∷ ps)) ≡ some (map byte_value (p ∷ ps))
unfolding colon_bytes
colon_bytes-spell sep p [] = rw (p.high_hex, p.low_hex)
colon_bytes-spell sep p (q ∷ ps) = ground (arith, p.high_hex, p.low_hex, colon_bytes-spell sep q ps)

module _ (a b c d e f : Pair) where
  abbrev pub six : List Pair
  six = a ∷ b ∷ c ∷ d ∷ e ∷ f ∷ []

  parse_mac-spell : parse_mac (spell b':' six) ≡ some (map byte_value six)
  unfolding parse_mac
  parse_mac-spell = colon_bytes-spell b':' a (b ∷ c ∷ d ∷ e ∷ f ∷ [])

  -- `IsValidUnicastMAC` accepts six pairs of hexadecimal digits exactly when the first byte is
  -- even, whether they are written with colons, with hyphens or with nothing between them.
  pub is_valid_unicast_mac_spellings :
      (is_valid_unicast_mac (spell b':' six) ≡ (byte_value a % 2 == 0))
      × (is_valid_unicast_mac (spell b'-' six) ≡ (byte_value a % 2 == 0))
      × (is_valid_unicast_mac (plain six) ≡ (byte_value a % 2 == 0))
  unfolding is_valid_unicast_mac
  is_valid_unicast_mac_spellings = (
    rw (replace_all-colons six, parse_mac-spell),
    rw (replace_all-spell six, parse_mac-spell),
    rw (
      replace_all-plain six,
      contains-plain six,
      insert_colons-plain a (b ∷ c ∷ d ∷ e ∷ f ∷ []),
      parse_mac-spell,
    ),
  )
