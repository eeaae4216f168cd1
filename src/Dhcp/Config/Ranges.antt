-- ===== src/Dhcp/Config/Ranges.antt =====
-- pkg/subnet/dhcpserver/config.go: the ranges that dnsmasq is given.
use topohub.Common.{
  ℕ, ◌≡◌, refl, ap₂, inl, inr, Bool, true, not, List, [], ◌∷◌, map, arith, ◌==◌, if◌then◌else◌,
  Bool-cases, all, Text, add_head, split, replace_all,
}
use topohub.Dhcp.Config.{ip_ranges}

-- a text without commas
abbrev no_comma : Text → Bool
no_comma s = all (λ c. not (c == b',')) s

back : (s : Text) → no_comma s ≡ true → replace_all b',' b'-' (replace_all b'-' b',' s) ≡ s
unfolding replace_all
back [] h = refl
back (c ∷ s) h =
    let rest = back s (ground arith) in
    let head : (if (if c == b'-' then b',' else c) == b','
          then b'-'
          else (if c == b'-' then b',' else c))
        ≡ c =
      ground arith in
    ap₂ (λ (x : ℕ) (y : Text). x ∷ y) head rest

add_head-no_comma :
    (c : ℕ) (ps : List Text)
    → not (c == b',') ≡ true
    → all no_comma ps ≡ true
    → all no_comma (add_head c ps) ≡ true
add_head-no_comma c [] h k = ground arith
add_head-no_comma c (p ∷ ps) h k = ground arith

split-no_comma : (s : Text) → all no_comma (split b',' s) ≡ true
unfolding split
split-no_comma [] = refl
split-no_comma (c ∷ s) = elim (Bool-cases (c == b',')) [
  | inl z ↦ rw z (split-no_comma s)
  | inr z ↦ rw z (add_head-no_comma c (split b',' s) (rw z refl) (split-no_comma s))
]

map_back :
    (ps : List Text)
    → all no_comma ps ≡ true
    → map (replace_all b',' b'-') (map (replace_all b'-' b',') ps) ≡ ps
map_back [] h = refl
map_back (p ∷ ps) h =
    ap₂ (λ (x : Text) (y : List Text). x ∷ y) (back p (ground arith)) (map_back ps (ground arith))

-- The ranges that the configuration names are the parts of the Subnet's range, in order: with hyphens
-- for the commas again they are what the range has between its commas, so that no part is lost, split
-- further or joined with another.
pub ip_ranges-parts :
    (range : Text) → map (replace_all b',' b'-') (ip_ranges range) ≡ split b',' range
unfolding ip_ranges
ip_ranges-parts range = map_back (split b',' range) (split-no_comma range)
