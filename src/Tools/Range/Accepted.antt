-- ===== src/Tools/Range/Accepted.antt =====
-- What ValidateIPRange of pkg/tools/tools.go accepts.
use topohub.Common.{
  ◌≡◌, refl, Bool, false, ◌&&◌, Option, none, some, List, [], ◌∷◌, map, arith, Text, contains,
  split, all, inl, inr, Bool-cases, is_ok, for_each,
}
use topohub.Net.Ip.{compare_bytes, is_le}
use topohub.Net.Order.{le_refl}
use topohub.Net.Prefix.{IpNet, contains_ip}
use topohub.Tools.Range.{
  parse_part, validate_ip_in_subnet, check_ends, check_single, check_range, validate_ip_range,
}
use topohub.Tools.Range.Spans.{Interval, pair, both, bounds}

-- An interval with both ends in the subnet, in order.
abbrev pub is_within : IpNet → Option Interval → Bool
is_within subnet none = false
is_within subnet (some (start, end)) =
    contains_ip subnet start && contains_ip subnet end && is_le (compare_bytes start end)

check_ends-is_within :
    (subnet : IpNet) (r : Text) (ws : List Text)
    → is_ok (check_ends subnet r ws) ≡ is_within subnet (pair (map parse_part ws))
unfolding check_ends validate_ip_in_subnet
check_ends-is_within subnet r [] = refl
check_ends-is_within subnet r (a ∷ []) = refl
check_ends-is_within subnet r (a ∷ b ∷ []) = ground arith
check_ends-is_within subnet r (a ∷ b ∷ c ∷ ws) = refl

check_single-is_within :
    (subnet : IpNet) (r : Text)
    → is_ok (check_single subnet r) ≡ is_within subnet (both (parse_part r))
unfolding check_single validate_ip_in_subnet
check_single-is_within subnet r = ground (arith, le_refl (parse_part r))

pub check_range-is_within :
    (subnet : IpNet) (r : Text) → is_ok (check_range subnet r) ≡ is_within subnet (bounds r)
unfolding check_range bounds
check_range-is_within subnet r = elim (Bool-cases (contains b'-' r)) [
  | inl c ↦ rw c (check_ends-is_within subnet r (split b'-' r))
  | inr c ↦ rw c (check_single-is_within subnet r)
]

for_each-is_within :
    (subnet : IpNet) (rs : List Text)
    → is_ok (for_each (check_range subnet) rs) ≡ all (λ r. is_within subnet (bounds r)) rs
for_each-is_within subnet [] = refl
for_each-is_within subnet (r ∷ rs) =
    ground (arith, check_range-is_within subnet r, for_each-is_within subnet rs)

-- `ValidateIPRange` accepts exactly the ranges of which every part stands for an interval with
-- both ends in the subnet and in order.
pub validate_ip_range-is_within :
    (ip_range : Text) (subnet : IpNet)
    → is_ok (validate_ip_range ip_range subnet)
      ≡ all (λ r. is_within subnet (bounds r)) (split b',' ip_range)
unfolding validate_ip_range
validate_ip_range-is_within ip_range subnet = for_each-is_within subnet (split b',' ip_range)
