-- ===== src/Net/Parse/Dotted.antt =====
-- net.ParseIP reads a text without a colon as dotted decimal, or refuses it.
use topohub.Common.{
  ℕ, ◌≡◌, refl, ap, ◌∙◌, ◌⊎◌, inl, inr, false, Option, some, List, [], ◌∷◌, arith, Bool-cases, Text,
  contains, split,
}
use topohub.Net.Ip.{Ip, nil, to16}
use topohub.Net.Parse.{parse_ip, parse_ipv4, parse_fields, four, parse_octet, by_first_separator}

abbrev pub IsMapped : Ip → Type 0
IsMapped ip = (a : ℕ) × (b : ℕ) × (c : ℕ) × (d : ℕ) × (ip ≡ to16 (a ∷ b ∷ c ∷ d ∷ []))

four_cases : (a b c d : Option ℕ) → (four a b c d ≡ nil) ⊎ IsMapped (to16 (four a b c d))
unfolding four
four_cases (some a) (some b) (some c) (some d) = inr (a, b, c, d, refl)
four_cases _ _ _ _ = inl refl

fields_cases : (ws : List Text) → (parse_fields ws ≡ nil) ⊎ IsMapped (to16 (parse_fields ws))
unfolding parse_fields
fields_cases (a ∷ b ∷ c ∷ d ∷ []) =
    four_cases (parse_octet 0 0 a) (parse_octet 0 0 b) (parse_octet 0 0 c) (parse_octet 0 0 d)
fields_cases _ = inl refl

ipv4_cases : (s : Text) → (parse_ipv4 s ≡ nil) ⊎ IsMapped (to16 (parse_ipv4 s))
unfolding parse_ipv4
ipv4_cases s = fields_cases (split b'.' s)

no_colon :
    (rest s : Text)
    → contains b':' rest ≡ false
    → (by_first_separator rest s ≡ nil) ⊎ (by_first_separator rest s ≡ to16 (parse_ipv4 s))
unfolding by_first_separator contains
no_colon [] s h = inl refl
no_colon (c ∷ rest) s h = ground (arith, no_colon rest s)

dotted_cases :
    (s : Text)
    → contains b':' s ≡ false
    → (by_first_separator s s ≡ nil) ⊎ IsMapped (by_first_separator s s)
dotted_cases s h = elim (no_colon s s h) [
  | inl e ↦ inl e
  | inr e ↦ elim (ipv4_cases s) [ inl n ↦ inl (e ∙ ap to16 n) | inr m ↦ inr (rw e m) ]
]

pub parse_ip_no_colon :
    (s : Text) → contains b':' s ≡ false → (parse_ip s ≡ nil) ⊎ IsMapped (parse_ip s)
unfolding parse_ip
parse_ip_no_colon s h = elim (Bool-cases (contains b'%' s)) [
  | inl z ↦ inl (rw z)
  | inr z ↦ rw z (dotted_cases s h)
]
