-- ===== src/Tools/Range/Inside.antt =====
-- An accepted range of pkg/tools/tools.go lies in its subnet with all its addresses, not only with
-- the ends that are tested.
use topohub.Common.{
  ℕ, zero, suc, ◌≡◌, refl, sym, ap₂, ◌∙◌, inl, inr, true, ◌&&◌, ◌||◌, Option, none, some, List, [],
  ◌∷◌, map, arith, if◌then◌else◌, Bool-cases, is_ok, length, take, drop, any, all, length-drop,
  Text, text_eq_iff, contains, split, trim_space,
}
use topohub.Net.Ip.{AreBytes-drop, Ip, is_nil, AreBytes, compare_bytes, is_le, v4_in_v6_prefix}
use topohub.Net.Prefix.{IpNet, contains_ip, and_bytes}
use topohub.Net.Prefix.V4.{IsV4Prefix, contains_v4, v4_parts}
use topohub.Net.Prefix.Convex.{squeeze_mask}
use topohub.Net.Parse.Size.{IsWellSized, parse_ip-IsWellSized}
use topohub.Net.Parse.Bytes.{parse_ip-AreBytes}
use topohub.Tools.Range.{parse_part, is_ip_in_range, validate_ip_range, validate_ip_in_subnet}
use topohub.Tools.Range.Spans.{
  Interval, pair, both, bounds, inside, in_union, is_ip_in_range-eq-in_union,
}
use topohub.Tools.Range.Accepted.{is_within, validate_ip_range-is_within}

-- The first `k` elements of what lies between two lists that agree there.
squeeze_take :
    (k : ℕ) (a x b : Ip)
    → length x ≡ length a
    → length b ≡ length a
    → is_le (compare_bytes a x) ≡ true
    → is_le (compare_bytes x b) ≡ true
    → take k a ≡ take k b
    → (take k x ≡ take k a)
      × (is_le (compare_bytes (drop k a) (drop k x)) ≡ true)
      × (is_le (compare_bytes (drop k x) (drop k b)) ≡ true)
unfolding compare_bytes
squeeze_take zero a x b p q h g e = (refl, h, g)
squeeze_take (suc k) [] [] [] p q h g e = (refl, refl, refl)
squeeze_take (suc k) [] (_ ∷ _) b p q h g e = absurd (omega arith)
squeeze_take (suc k) [] [] (_ ∷ _) p q h g e = absurd (omega arith)
squeeze_take (suc k) (_ ∷ _) [] b p q h g e = absurd (omega arith)
squeeze_take (suc k) (_ ∷ _) (_ ∷ _) [] p q h g e = absurd (omega arith)
squeeze_take (suc k) (a ∷ as') (x ∷ xs) (b ∷ bs) p q h g e =
    ground (arith, squeeze_take k as' xs bs)

drop_12 : (ip : Ip) → length ip ≡ 16 → length (drop 12 ip) ≡ 4
drop_12 ip h = omega (arith, length-drop 12 ip)

-- A prefix holds what lies between two of its addresses.
contains_ip_between :
    (net : IpNet) (s ip e : Ip)
    → IsV4Prefix net
    → length s ≡ 16
    → length ip ≡ 16
    → length e ≡ 16
    → AreBytes s
    → AreBytes ip
    → AreBytes e
    → is_le (compare_bytes s ip) ≡ true
    → is_le (compare_bytes ip e) ≡ true
    → contains_ip net s ≡ true
    → contains_ip net e ≡ true
    → contains_ip net ip ≡ true
contains_ip_between net s ip e v ls li le' bs bi be h g cs ce =
    let in_s = v4_parts net s v ls cs in
    let in_e = v4_parts net e v le' ce in
    let (same, low, high) =
      squeeze_take 12 s ip e (li ∙ sym ls) (le' ∙ sym ls) h g (in_s.0 ∙ sym in_e.0) in
    let masked : and_bytes (drop 12 ip) net.mask ≡ and_bytes (drop 12 s) net.mask = rw v.masks (
      squeeze_mask v.ones 4 (drop 12 s) (drop 12 ip) (drop 12 e) (drop_12 s ls) (drop_12 ip li)
        (drop_12 e le') (AreBytes-drop 12 s bs) (AreBytes-drop 12 ip bi) (AreBytes-drop 12 e be) low
        high (rw v.masks at (sym in_s.1 ∙ in_e.1))) in
    contains_v4 net ip v li
    ∙ ap₂ ◌&&◌ ((text_eq_iff (take 12 ip) v4_in_v6_prefix).1 (same ∙ in_s.0)) (
        (text_eq_iff (and_bytes net.ip net.mask) (and_bytes (drop 12 ip) net.mask)).1
          (in_s.1 ∙ sym masked))

-- The ends of an interval are addresses that net.ParseIP returned.
abbrev AreParsed : Option Interval → Type 0
AreParsed none = Unit
AreParsed (some (s, e)) = (length s ≡ 16) × (length e ≡ 16) × AreBytes s × AreBytes e

pair_of-AreParsed :
    (p q : Ip)
    → IsWellSized p
    → IsWellSized q
    → AreBytes p
    → AreBytes q
    → AreParsed (if is_nil p || is_nil q then none else some (p, q))
pair_of-AreParsed [] q wp wq bp bq = tt
pair_of-AreParsed (a ∷ p) [] wp wq bp bq = tt
pair_of-AreParsed (a ∷ p) (b ∷ q) (inl e) wq bp bq = cc
pair_of-AreParsed (a ∷ p) (b ∷ q) (inr e) (inl d) bp bq = cc
pair_of-AreParsed (a ∷ p) (b ∷ q) (inr e) (inr d) bp bq = (e, d, bp, bq)

both-AreParsed : (p : Ip) → IsWellSized p → AreBytes p → AreParsed (both p)
both-AreParsed [] w b = tt
both-AreParsed (a ∷ p) (inl e) b = cc
both-AreParsed (a ∷ p) (inr e) b = (e, e, b, b)

pair-AreParsed : (ws : List Text) → AreParsed (pair (map parse_part ws))
pair-AreParsed [] = tt
pair-AreParsed (a ∷ []) = tt
pair-AreParsed (a ∷ b ∷ []) =
    pair_of-AreParsed (parse_part a) (parse_part b) (parse_ip-IsWellSized (trim_space a))
      (parse_ip-IsWellSized (trim_space b)) (parse_ip-AreBytes (trim_space a))
      (parse_ip-AreBytes (trim_space b))
pair-AreParsed (a ∷ b ∷ c ∷ ws) = tt

bounds-AreParsed : (r : Text) → AreParsed (bounds r)
unfolding bounds
bounds-AreParsed r = elim (Bool-cases (contains b'-' r)) [
  | inl c ↦ rw c (pair-AreParsed (split b'-' r))
  | inr c ↦ rw c (
      both-AreParsed (parse_part r) (parse_ip-IsWellSized (trim_space r))
        (parse_ip-AreBytes (trim_space r)))
]

module _ (net : IpNet) (v : IsV4Prefix net) (ip : Ip) (l : length ip ≡ 16) (b : AreBytes ip) where
  interval-contains :
      (o : Option Interval)
      → AreParsed o
      → is_within net o ≡ true
      → inside ip o ≡ true
      → contains_ip net ip ≡ true
  interval-contains none p w m = cc
  interval-contains (some (s, e)) p w m =
      contains_ip_between net s ip e v p.0 l p.1 p.2 b p.3 (ground arith) (ground arith)
        (ground arith) (ground arith)

  intervals-contains :
      (rs : List Text)
      → all (λ r. is_within net (bounds r)) rs ≡ true
      → any (λ r. inside ip (bounds r)) rs ≡ true
      → contains_ip net ip ≡ true
  intervals-contains [] w m = cc
  intervals-contains (r ∷ rs) w m =
      ground (arith, interval-contains (bounds r) (bounds-AreParsed r), intervals-contains rs)

-- If `ValidateIPRange` accepts a range for an IPv4 prefix, then the prefix contains every address
-- of 16 bytes that `IsIPInRange` finds in the range.
pub validate_ip_range-contains :
    (ip_range : Text) (net : IpNet) (ip : Ip)
    → IsV4Prefix net
    → length ip ≡ 16
    → AreBytes ip
    → is_ok (validate_ip_range ip_range net) ≡ true
    → is_ip_in_range ip ip_range ≡ true
    → validate_ip_in_subnet ip net ≡ true
unfolding validate_ip_in_subnet
validate_ip_range-contains ip_range net ip v l b w m =
    intervals-contains net v ip l b (split b',' ip_range)
      (sym (validate_ip_range-is_within ip_range net) ∙ w)
      (unfold in_union in sym (is_ip_in_range-eq-in_union ip ip_range l) ∙ m)
