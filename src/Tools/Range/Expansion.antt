-- ===== src/Tools/Range/Expansion.antt =====
-- ValidateIPRangeExpansion of pkg/tools/tools.go never takes an address away.
use topohub.Common.{
  ◌≡◌, refl, sym, ◌∙◌, true, ◌&&◌, Option, none, some, List, [], ◌∷◌, map, arith, Text, contains,
  split, trim_space, length, any, all, inl, inr, Bool-cases, is_ok, for_each, get_or,
}
use topohub.Common.Trim.{trim_space_idem}
use topohub.Net.Ip.{Ip, compare_bytes, is_le}
use topohub.Net.Order.{le_trans, ge-eq-le}
use topohub.Net.Parse.{parse_ip}
use topohub.Net.Prefix.{IpNet}
use topohub.Tools.Range.{
  parse_part, compare_ip, span, covers, check_covered, is_ip_in_range, validate_ip_range,
  validate_ip_range_expansion,
}
use topohub.Tools.Range.Spans.{
  Interval, pair, both, bounds, inside, in_union, bounds-trim_space, is_ip_in_range-eq-in_union,
}
use topohub.Tools.Range.Accepted.{is_within, validate_ip_range-is_within}

pair-get_or :
    (ws : List Text) {i : Interval}
    → pair (map parse_part ws) ≡ some i
    → (parse_part (get_or ws 0 []), parse_part (get_or ws 1 [])) ≡ i
pair-get_or [] h = cc
pair-get_or (a ∷ []) h = cc
pair-get_or (a ∷ b ∷ []) h = ground arith
pair-get_or (a ∷ b ∷ c ∷ ws) h = cc

both-pair : (q : Ip) {i : Interval} → both q ≡ some i → (q, q) ≡ i
both-pair q h = ground arith

span-bounds_trimmed : (t : Text) {i : Interval} → trim_space t ≡ t → bounds t ≡ some i → span t ≡ i
unfolding span bounds
span-bounds_trimmed t e h = elim (Bool-cases (contains b'-' t)) [
  | inl c ↦ rw c (pair-get_or (split b'-' t) (rw c at h))
  | inr c ↦ rw c (both-pair (parse_ip t) (rw (c, e) at h))
]

span-bounds : (r : Text) {i : Interval} → bounds r ≡ some i → span (trim_space r) ≡ i
span-bounds r h = span-bounds_trimmed (trim_space r) (trim_space_idem r) (bounds-trim_space r ∙ h)

covers-bounds :
    (old new : Text) (s e s' e' : Ip)
    → bounds old ≡ some (s, e)
    → bounds new ≡ some (s', e')
    → covers (trim_space old) (trim_space new)
      ≡ (is_le (compare_bytes s' s) && is_le (compare_bytes e e'))
unfolding covers compare_ip
covers-bounds old new s e s' e' p q = rw (span-bounds old p, span-bounds new q) (rw (ge-eq-le e' e))

-- A new part that covers an old one holds every address of it.
covers-inside :
    (subnet : IpNet) (ip : Ip) (old new : Text)
    → is_within subnet (bounds new) ≡ true
    → covers (trim_space old) (trim_space new) ≡ true
    → inside ip (bounds old) ≡ true
    → inside ip (bounds new) ≡ true
covers-inside subnet ip old new w c h = go (bounds old) (bounds new) refl refl
  where
    go : (o n : Option Interval) → bounds old ≡ o → bounds new ≡ n → inside ip (bounds new) ≡ true
    go none n p q = ground arith
    go (some i) none p q = ground arith
    go (some (s, e)) (some (s', e')) p q = rw q (
        ground (
          arith,
          rw q at w,
          rw p at h,
          covers-bounds old new s e s' e' p q,
          le_trans s' s ip,
          le_trans ip e e',
        ))

any-covers-inside :
    (subnet : IpNet) (ip : Ip) (old : Text) (news : List Text)
    → all (λ r. is_within subnet (bounds r)) news ≡ true
    → any (λ r. covers (trim_space old) (trim_space r)) news ≡ true
    → inside ip (bounds old) ≡ true
    → any (λ r. inside ip (bounds r)) news ≡ true
any-covers-inside subnet ip old [] w c h = cc
any-covers-inside subnet ip old (r ∷ rs) w c h =
    ground (arith, covers-inside subnet ip old r, any-covers-inside subnet ip old rs)

check_covered-any :
    (news : List Text) (old : Text)
    → is_ok (check_covered news old) ≡ any (λ r. covers (trim_space old) (trim_space r)) news
unfolding check_covered
check_covered-any news old = ground arith

all_covered-inside :
    (subnet : IpNet) (ip : Ip) (news olds : List Text)
    → all (λ r. is_within subnet (bounds r)) news ≡ true
    → is_ok (for_each (check_covered news) olds) ≡ true
    → any (λ r. inside ip (bounds r)) olds ≡ true
    → any (λ r. inside ip (bounds r)) news ≡ true
all_covered-inside subnet ip news [] w c h = cc
all_covered-inside subnet ip news (r ∷ rs) w c h = ground (
  arith,
  check_covered-any news r,
  any-covers-inside subnet ip r news w,
  all_covered-inside subnet ip news rs w,
)

three-is_ok :
    (old_ip_range new_ip_range : Text) (subnet : IpNet)
    → is_ok (validate_ip_range_expansion old_ip_range new_ip_range subnet) ≡ (
        is_ok (validate_ip_range old_ip_range subnet)
        && (is_ok (validate_ip_range new_ip_range subnet)
            && is_ok
                (for_each (check_covered (split b',' new_ip_range)) (split b',' old_ip_range))))
unfolding validate_ip_range_expansion
three-is_ok old_ip_range new_ip_range subnet = ground arith

pub validate_ip_range_expansion-keeps :
    (old_ip_range new_ip_range : Text) (subnet : IpNet) (ip : Ip)
    → is_ok (validate_ip_range_expansion old_ip_range new_ip_range subnet) ≡ true
    → length ip ≡ 16
    → is_ip_in_range ip old_ip_range ≡ true
    → is_ip_in_range ip new_ip_range ≡ true
validate_ip_range_expansion-keeps old_ip_range new_ip_range subnet ip v h m =
    is_ip_in_range-eq-in_union ip new_ip_range h
    ∙ unfold in_union in
      all_covered-inside subnet ip (split b',' new_ip_range) (split b',' old_ip_range)
        (sym (validate_ip_range-is_within new_ip_range subnet) ∙ parts.1) parts.2
        (sym (is_ip_in_range-eq-in_union ip old_ip_range h) ∙ m)
  where
    parts :
        (is_ok (validate_ip_range old_ip_range subnet) ≡ true)
        × (is_ok (validate_ip_range new_ip_range subnet) ≡ true)
        × (is_ok (for_each (check_covered (split b',' new_ip_range)) (split b',' old_ip_range))
            ≡ true)
    parts = ground (arith, v, three-is_ok old_ip_range new_ip_range subnet)
