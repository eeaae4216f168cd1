-- ===== src/Tools/Range/Spans.antt =====
-- A textual range as a union of closed intervals, and the checks of pkg/tools/tools.go against it.
use topohub.Common.{
  ◌≡◌, refl, ap, Bool, false, ◌&&◌, ◌||◌, Option, none, some, List, [], ◌∷◌, map, arith,
  if◌then◌else◌, Text, contains, split, trim_space, length, any, inl, inr, Bool-cases,
}
use topohub.Common.Trim.{trim_space_idem, split-trim_space, contains-trim_space}
use topohub.Net.Ip.{Ip, is_nil, compare_bytes, is_le, ip_equal_iff}
use topohub.Net.Order.{le_refl, le_antisymm}
use topohub.Net.Parse.{parse_ip}
use topohub.Net.Parse.Size.{IsWellSized, parse_ip-IsWellSized}
use topohub.Tools.Range.{parse_part, in_ends, is_single, in_range, is_ip_in_range}

abbrev pub Interval : Type 0
Interval = Ip × Ip

abbrev pub both : Ip → Option Interval
both ip = if is_nil ip then none else some (ip, ip)

abbrev pub pair : List Ip → Option Interval
pair (start ∷ end ∷ []) = if is_nil start || is_nil end then none else some (start, end)
pair _ = none

-- The interval that one part of a range stands for.
unfoldable pub bounds : Text → Option Interval
bounds r = if contains b'-' r then pair (map parse_part (split b'-' r)) else both (parse_part r)

abbrev pub inside : Ip → Option Interval → Bool
inside ip none = false
inside ip (some (start, end)) = is_le (compare_bytes start ip) && is_le (compare_bytes ip end)

-- Membership in the union.
unfoldable pub in_union : Ip → Text → Bool
in_union ip ip_range = any (λ r. inside ip (bounds r)) (split b',' ip_range)

map-parse_part : (ws : List Text) → map parse_part ws ≡ map parse_ip (map trim_space ws)
map-parse_part [] = refl
map-parse_part (w ∷ ws) = ap (◌∷◌ (parse_part w)) (map-parse_part ws)

pub bounds-trim_space : (r : Text) → bounds (trim_space r) ≡ bounds r
unfolding bounds
bounds-trim_space r = rw (
  contains-trim_space b'-' r refl,
  map-parse_part (split b'-' (trim_space r)),
  split-trim_space b'-' r refl,
  ← map-parse_part (split b'-' r),
  trim_space_idem r,
)

in_ends-inside : (ip : Ip) (ws : List Text) → in_ends ip ws ≡ inside ip (pair (map parse_part ws))
unfolding in_ends
in_ends-inside ip [] = refl
in_ends-inside ip (a ∷ []) = refl
in_ends-inside ip (a ∷ b ∷ []) = ground arith
in_ends-inside ip (a ∷ b ∷ c ∷ ws) = refl

is_single-inside :
    (ip q : Ip) → length ip ≡ 16 → IsWellSized q → is_single ip q ≡ inside ip (both q)
unfolding is_single
is_single-inside ip [] h w = refl
is_single-inside ip (b ∷ bs) h (inl e) = cc
is_single-inside ip (b ∷ bs) h (inr e) =
    ground (arith, ip_equal_iff ip (b ∷ bs), le_refl ip, le_antisymm ip (b ∷ bs))

in_range-inside :
    (ip : Ip) (t : Text) → length ip ≡ 16 → trim_space t ≡ t → in_range ip t ≡ inside ip (bounds t)
unfolding in_range bounds
in_range-inside ip t h e = elim (Bool-cases (contains b'-' t)) [
  | inl c ↦ rw c (in_ends-inside ip (split b'-' t))
  | inr c ↦ rw (c, e) (is_single-inside ip (parse_ip t) h (parse_ip-IsWellSized t))
]

any-in_range :
    (ip : Ip) (rs : List Text)
    → length ip ≡ 16
    → any (λ r. in_range ip (trim_space r)) rs ≡ any (λ r. inside ip (bounds r)) rs
any-in_range ip [] h = refl
any-in_range ip (r ∷ rs) h = rw (
  in_range-inside ip (trim_space r) h (trim_space_idem r),
  bounds-trim_space r,
  any-in_range ip rs h,
)

-- For an address of 16 bytes, `IsIPInRange` is membership in the union of the intervals that the
-- parts of the range stand for; a part that stands for none holds no address.
pub is_ip_in_range-eq-in_union :
    (ip : Ip) (ip_range : Text) → length ip ≡ 16 → is_ip_in_range ip ip_range ≡ in_union ip ip_range
unfolding is_ip_in_range in_union
is_ip_in_range-eq-in_union ip ip_range h = any-in_range ip (split b',' ip_range) h
