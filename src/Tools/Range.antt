-- ===== src/Tools/Range.antt =====
-- pkg/tools/tools.go: the textual IP ranges of a subnet, `a-b,c,d-e`.
pub mod Spans
pub mod Accepted
pub mod Expansion
pub mod Inside
use Prim.Native.Nat.{Ordering}
use topohub.Common.{
  Bool, false, not, ◌&&◌, ◌||◌, List, [], ◌∷◌, if◌then◌else◌, Text, contains, split, trim_space,
  get_or, any, Result, err, ◌>>◌, guard, for_each, wrap,
}
use topohub.Net.Ip.{Ip, is_nil, compare_bytes, is_le, is_ge, is_gt, ip_equal}
use topohub.Net.Parse.{parse_ip}
use topohub.Net.Prefix.{IpNet, contains_ip}

-- The errors of ValidateIPRange, one for each return.
pub data RangeError : Type 0 where
  bad_format bad_address : Text → RangeError
  start_outside end_outside outside : Ip → RangeError
  inverted : Ip → Ip → RangeError

-- CompareIP
unfoldable pub compare_ip : Ip → Ip → Ordering
compare_ip ip1 ip2 = compare_bytes ip1 ip2

-- ValidateIPInSubnet
unfoldable pub validate_ip_in_subnet : Ip → IpNet → Bool
validate_ip_in_subnet ip subnet = contains_ip subnet ip

-- a part of a range, with the blanks around it cut off
abbrev pub parse_part : Text → Ip
parse_part s = parse_ip (trim_space s)

unfoldable pub check_ends : IpNet → Text → List Text → Result RangeError (Unit {0})
check_ends subnet r (a ∷ b ∷ []) = do
  let start = parse_part a
  let end = parse_part b
  guard (not (is_nil start || is_nil end)) (bad_address r)
  guard (validate_ip_in_subnet start subnet) (start_outside start)
  guard (validate_ip_in_subnet end subnet) (end_outside end)
  guard (not (is_gt (compare_bytes start end))) (inverted start end)
check_ends subnet r _ = err (bad_format r)

unfoldable pub check_single : IpNet → Text → Result RangeError (Unit {0})
check_single subnet r = do
  let ip = parse_part r
  guard (not (is_nil ip)) (bad_address r)
  guard (validate_ip_in_subnet ip subnet) (outside ip)

-- one round of the loop of ValidateIPRange
unfoldable pub check_range : IpNet → Text → Result RangeError (Unit {0})
unfolding check_ends check_single
check_range subnet r =
    if contains b'-' r then check_ends subnet r (split b'-' r) else check_single subnet r

-- ValidateIPRange
unfoldable pub validate_ip_range : Text → IpNet → Result RangeError (Unit {0})
unfolding check_range
validate_ip_range ip_range subnet = for_each (check_range subnet) (split b',' ip_range)

unfoldable pub in_ends : Ip → List Text → Bool
unfolding compare_ip
in_ends ip (a ∷ b ∷ []) =
    let start = parse_part a in
    let end = parse_part b in
    not (is_nil start || is_nil end) && is_le (compare_ip start ip) && is_le (compare_ip ip end)
in_ends ip _ = false

unfoldable pub is_single : Ip → Ip → Bool
is_single ip range_ip = not (is_nil range_ip) && ip_equal ip range_ip

-- one round of the loop of IsIPInRange, on a part that is already trimmed
unfoldable pub in_range : Ip → Text → Bool
unfolding in_ends is_single
in_range ip r = if contains b'-' r then in_ends ip (split b'-' r) else is_single ip (parse_ip r)

-- IsIPInRange
unfoldable pub is_ip_in_range : Ip → Text → Bool
unfolding in_range
is_ip_in_range ip ip_range = any (λ r. in_range ip (trim_space r)) (split b',' ip_range)

-- The errors of ValidateIPRangeExpansion.
pub data ExpansionError : Type 0 where
  old_invalid new_invalid : RangeError → ExpansionError
  shrunk : Text → ExpansionError

-- the first and the last address of a trimmed part; nil where it has none
unfoldable pub span : Text → Ip × Ip
span r =
    if contains b'-' r
    then (parse_part (get_or (split b'-' r) 0 []), parse_part (get_or (split b'-' r) 1 []))
    else (parse_ip r, parse_ip r)

-- whether the new part covers the old one
unfoldable pub covers : Text → Text → Bool
unfolding span compare_ip
covers old_range new_range =
    is_le (compare_ip (span new_range).0 (span old_range).0)
    && is_ge (compare_ip (span new_range).1 (span old_range).1)

unfoldable pub check_covered : List Text → Text → Result ExpansionError (Unit {0})
unfolding covers
check_covered new_ranges old_range =
    let old = trim_space old_range in
    guard (any (λ r. covers old (trim_space r)) new_ranges) (shrunk old)

-- ValidateIPRangeExpansion
unfoldable pub validate_ip_range_expansion : Text → Text → IpNet → Result ExpansionError (Unit {0})
validate_ip_range_expansion old_ip_range new_ip_range subnet = do
  wrap old_invalid (validate_ip_range old_ip_range subnet)
  wrap new_invalid (validate_ip_range new_ip_range subnet)
  for_each (check_covered (split b',' new_ip_range)) (split b',' old_ip_range)
