-- ===== src/Tools/Count.antt =====
-- pkg/tools/tools.go: CountIPsInRange, in uint64 with the sizes of the parts in uint32.
pub mod Sizes
use topohub.Common.{
  ℕ, ◌+◌, ◌-◌, ◌*◌, ◌%◌, ◌^◌, not, ◌||◌, List, [], ◌∷◌, if◌then◌else◌, Result, ◌>>=◌, ◌>>◌, guard,
  Text, contains, split, trim_space, ok, err,
}
use topohub.Net.Ip.{Ip, is_nil, to4, compare_bytes, is_gt}
use topohub.Tools.Range.{parse_part}

pub data CountError : Type 0 where
  bad_format bad_address not_ipv4 : Text → CountError
  inverted : Ip → Ip → CountError

abbrev pub u32 : ℕ → ℕ
u32 n = n % 2 ^ 32

abbrev pub u64 : ℕ → ℕ
u64 n = n % 2 ^ 64

-- ipToUint32 on four bytes: the bytes do not overlap, so `|` adds them
unfoldable pub ip_to_uint32 : Ip → ℕ
ip_to_uint32 (a ∷ b ∷ c ∷ d ∷ []) = a * 2 ^ 24 + b * 2 ^ 16 + c * 2 ^ 8 + d
ip_to_uint32 _ = 0

-- endInt - startInt + 1, in uint32
abbrev span_size : Ip → Ip → ℕ
span_size start end = u32 (ip_to_uint32 end + 2 ^ 32 - ip_to_uint32 start + 1)

unfoldable pub count_ends : Text → List Text → Result CountError ℕ
count_ends r (a ∷ b ∷ []) = do
  let start = parse_part a
  let end = parse_part b
  guard (not (is_nil start || is_nil end)) (bad_address r)
  guard (not (is_nil (to4 start) || is_nil (to4 end))) (not_ipv4 r)
  guard (not (is_gt (compare_bytes (to4 start) (to4 end)))) (inverted (to4 start) (to4 end))
  ok (span_size (to4 start) (to4 end))
count_ends r _ = err (bad_format r)

unfoldable pub count_single : Text → Result CountError ℕ
count_single r = do
  let ip = parse_part r
  guard (not (is_nil ip)) (bad_address r)
  guard (not (is_nil (to4 ip))) (not_ipv4 r)
  ok 1

-- one round of the loop, on a trimmed part: what it adds to the total
unfoldable pub count_part : Text → Result CountError ℕ
count_part r = if contains b'-' r then count_ends r (split b'-' r) else count_single r

unfoldable pub count_parts : ℕ → List Text → Result CountError ℕ
count_parts total [] = ok total
count_parts total (r ∷ rs) = count_part (trim_space r) >>= λ n. count_parts (u64 (total + n)) rs

-- CountIPsInRange
unfoldable pub count_ips_in_range : Text → Result CountError ℕ
count_ips_in_range ip_range = count_parts 0 (split b',' ip_range)
