-- ===== src/Tools/Count/Sizes.antt =====
-- What CountIPsInRange of pkg/tools/tools.go counts.
use topohub.Common.{
  ℕ, ◌+◌, ◌-◌, ◌%◌, ◌^◌, ◌≤◌, ◌<◌, ◌≡◌, refl, ap, ◌∙◌, ◌⊎◌, inl, inr, false, ◌||◌, Option, none,
  some, List, [], ◌∷◌, map, arith, Bool-cases, >>=-eq-ok, length, drop, length-drop, All, Text,
  contains, split, trim_space, ok, Result, is_ok, true, err,
}
use topohub.Net.Ip.{AreBytes-drop, to4, compare_bytes, is_gt, AreBytes, Ip, is_nil}
use topohub.Tools.Range.Spans.{Interval, bounds, pair, both, bounds-trim_space}
use topohub.Tools.Count.{
  ip_to_uint32, count_ends, count_single, count_part, count_parts, count_ips_in_range, u64,
}
use topohub.Tools.Range.{parse_part}
use topohub.Net.Parse.Bytes.{parse_ip-AreBytes}

-- The number of the IPv4 addresses from the first to the last.
abbrev pub size : Option Interval → ℕ
size none = 0
size (some (start, end)) = ip_to_uint32 (to4 end) + 1 - ip_to_uint32 (to4 start)

pub sizes : List Text → ℕ
sizes [] = 0
sizes (r ∷ rs) = size (bounds r) + sizes rs

-- Four bytes are compared as the number that they write.
ip_to_uint32-le :
    (a b c d w x y z : ℕ)
    → AreBytes (a ∷ b ∷ c ∷ d ∷ [])
    → AreBytes (w ∷ x ∷ y ∷ z ∷ [])
    → is_gt (compare_bytes (a ∷ b ∷ c ∷ d ∷ []) (w ∷ x ∷ y ∷ z ∷ [])) ≡ false
    → ip_to_uint32 (a ∷ b ∷ c ∷ d ∷ []) ≤ ip_to_uint32 (w ∷ x ∷ y ∷ z ∷ [])
unfolding ip_to_uint32 compare_bytes
ip_to_uint32-le a b c d w x y z h k g = ground arith

ip_to_uint32-lt :
    (a b c d : ℕ) → AreBytes (a ∷ b ∷ c ∷ d ∷ []) → ip_to_uint32 (a ∷ b ∷ c ∷ d ∷ []) < 2 ^ 32
unfolding ip_to_uint32
ip_to_uint32-lt a b c d h = omega arith

-- An IPv4 form is four bytes, or nil.
abbrev IsQuad : Ip → Type 0
IsQuad ip =
    (a : ℕ) × (b : ℕ) × (c : ℕ) × (d : ℕ) × (ip ≡ a ∷ b ∷ c ∷ d ∷ [])
    × AreBytes (a ∷ b ∷ c ∷ d ∷ [])

four_bytes : (xs : Ip) → length xs ≡ 4 → AreBytes xs → IsQuad xs
four_bytes [] h k = absurd (omega arith)
four_bytes (a ∷ []) h k = absurd (omega arith)
four_bytes (a ∷ b ∷ []) h k = absurd (omega arith)
four_bytes (a ∷ b ∷ c ∷ []) h k = absurd (omega arith)
four_bytes (a ∷ b ∷ c ∷ d ∷ []) h k = (a, b, c, d, refl, k)
four_bytes (a ∷ b ∷ c ∷ d ∷ e ∷ xs) h k = absurd (omega arith)

to4_cases :
    (ip : Ip)
    → (to4 ip ≡ []) ⊎ ((length ip ≡ 4) × (to4 ip ≡ ip) ⊎ (length ip ≡ 16) × (to4 ip ≡ drop 12 ip))
unfolding to4
to4_cases ip = ground arith

to4-IsQuad : (ip : Ip) → AreBytes ip → (to4 ip ≡ []) ⊎ IsQuad (to4 ip)
to4-IsQuad ip h = elim (to4_cases ip) [
  | inl e ↦ inl e
  | inr (inl (l, e)) ↦ inr (rw e (four_bytes ip l h))
  | inr (inr (l, e)) ↦
      inr
        (rw e (four_bytes (drop 12 ip) (omega (arith, length-drop 12 ip)) (AreBytes-drop 12 ip h)))
]

span-size :
    (s e : Ip)
    → IsQuad s
    → IsQuad e
    → is_gt (compare_bytes s e) ≡ false
    → (ip_to_uint32 e + 2 ^ 32 - ip_to_uint32 s + 1) % 2 ^ 32
      ≡ (ip_to_uint32 e + 1 - ip_to_uint32 s) % 2 ^ 32
span-size s e (a, b, c, d, p, hs) (w, x, y, z, q, he) g =
    rw (p, q)
      (omega (
        arith,
        ip_to_uint32-lt a b c d hs,
        ip_to_uint32-lt w x y z he,
        ip_to_uint32-le a b c d w x y z hs he (rw (p, q) at g),
      ))

-- The sum in uint32 against the number of addresses.
pub wrapped : Option Interval → ℕ
wrapped i = size i % 2 ^ 32

both_quads :
    (p q : Ip)
    → AreBytes p
    → AreBytes q
    → (is_nil (to4 p) || is_nil (to4 q)) ≡ false
    → IsQuad (to4 p) × IsQuad (to4 q)
both_quads p q hp hq g = elim (to4-IsQuad p hp) [
  | inl e ↦ ground arith
  | inr i ↦ elim (to4-IsQuad q hq) [ inl e ↦ ground arith | inr j ↦ (i, j) ]
]

count_ends-size :
    (r : Text) (ws : List Text) (n : ℕ)
    → count_ends r ws ≡ ok n
    → n ≡ wrapped (pair (map parse_part ws))
unfolding count_ends wrapped
count_ends-size r [] n h = cc
count_ends-size r (a ∷ []) n h = cc
count_ends-size r (a ∷ b ∷ []) n h =
    let p = parse_part a in
    let q = parse_part b in
    let quads =
      both_quads p q (parse_ip-AreBytes (trim_space a)) (parse_ip-AreBytes (trim_space b))
        (ground arith) in
    ground (arith, h, span-size (to4 p) (to4 q) quads.0 quads.1)
count_ends-size r (a ∷ b ∷ c ∷ ws) n h = cc

count_single-size : (r : Text) (n : ℕ) → count_single r ≡ ok n → n ≡ wrapped (both (parse_part r))
unfolding count_single wrapped
count_single-size r n h = ground arith

-- A part adds the number of its addresses, modulo 2^32.
pub count_part-size : (r : Text) (n : ℕ) → count_part r ≡ ok n → n ≡ wrapped (bounds r)
unfolding count_part bounds
count_part-size r n h = elim (Bool-cases (contains b'-' r)) [
  | inl c ↦ rw c (count_ends-size r (split b'-' r) n (rw c at h))
  | inr c ↦ rw c (count_single-size r n (rw c at h))
]

wrapped_sizes : List Text → ℕ
wrapped_sizes [] = 0
wrapped_sizes (r ∷ rs) = wrapped (bounds r) + wrapped_sizes rs

count_parts-wrapped :
    (total : ℕ) (rs : List Text) (n : ℕ)
    → total < 2 ^ 64
    → count_parts total rs ≡ ok n
    → n ≡ u64 (total + wrapped_sizes rs)
unfolding count_parts wrapped_sizes
count_parts-wrapped total [] n lt h = ground arith
count_parts-wrapped total (r ∷ rs) n lt h =
    let (m, part, rest) =
      >>=-eq-ok (count_part (trim_space r)) (λ k. count_parts (u64 (total + k)) rs) h in
    let added = count_part-size (trim_space r) m part ∙ ap wrapped (bounds-trim_space r) in
    omega (arith, added, count_parts-wrapped (u64 (total + m)) rs n (omega arith) rest)

wrapped_sizes-sizes :
    (rs : List Text) → All (λ r. size (bounds r) < 2 ^ 32) rs → wrapped_sizes rs ≡ sizes rs
unfolding wrapped_sizes sizes wrapped
wrapped_sizes-sizes [] h = refl
wrapped_sizes-sizes (r ∷ rs) h = omega (arith, wrapped_sizes-sizes rs h.1)

wrapped_sizes_full :
    (rs : List Text) → All (λ r. size (bounds r) ≡ 2 ^ 32) rs → wrapped_sizes rs ≡ 0
unfolding wrapped_sizes wrapped
wrapped_sizes_full [] h = refl
wrapped_sizes_full (r ∷ rs) h = omega (arith, wrapped_sizes_full rs h.1)

counted :
    {A : Type 0} (r : Result A ℕ) (k : ℕ) → ((n : ℕ) → r ≡ ok n → n ≡ k) → is_ok r ≡ true → r ≡ ok k
counted (ok n) k f h = ap ok (f n refl)
counted (err x) k f h = cc

-- When `CountIPsInRange` returns a number, it is the sum of the numbers of addresses of the parts
-- modulo 2^64, provided that no part spans all 2^32 addresses.
pub count_ips_in_range-sizes :
    (ip_range : Text)
    → All (λ r. size (bounds r) < 2 ^ 32) (split b',' ip_range)
    → is_ok (count_ips_in_range ip_range) ≡ true
    → count_ips_in_range ip_range ≡ ok (u64 (sizes (split b',' ip_range)))
unfolding count_ips_in_range
count_ips_in_range-sizes ip_range h e =
    counted (count_ips_in_range ip_range) (u64 (sizes (split b',' ip_range)))
      (λ n k. omega (
        arith,
        count_parts-wrapped 0 (split b',' ip_range) n (omega arith) k,
        wrapped_sizes-sizes (split b',' ip_range) h,
      ))
      e

-- When `CountIPsInRange` returns a number for a range whose parts all span the 2^32 addresses from
-- 0.0.0.0 to 255.255.255.255, the number is 0.
pub count_ips_in_range_full :
    (ip_range : Text)
    → All (λ r. size (bounds r) ≡ 2 ^ 32) (split b',' ip_range)
    → is_ok (count_ips_in_range ip_range) ≡ true
    → count_ips_in_range ip_range ≡ ok 0
unfolding count_ips_in_range
count_ips_in_range_full ip_range h e =
    counted (count_ips_in_range ip_range) 0
      (λ n k. omega (
        arith,
        count_parts-wrapped 0 (split b',' ip_range) n (omega arith) k,
        wrapped_sizes_full (split b',' ip_range) h,
      ))
      e
