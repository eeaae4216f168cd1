-- ===== src/Net/Parse/Bytes.antt =====
-- The elements of an address that net.ParseIP returns are bytes.
use topohub.Common.{
  ℕ, zero, suc, ◌+◌, ◌-◌, ◌*◌, ◌/◌, ◌%◌, ◌≤◌, ◌<◌, ◌≡◌, refl, subst, inl, inr, Bool, true, false,
  Option, none, some, List, [], ◌∷◌, ◌++◌, arith, ltb, ◌==◌, if◌then◌else◌, Option-cases, length,
  take, drop, replicate, Text, split,
}
use topohub.Net.Ip.{AreBytes-append, AreBytes-take, AreBytes-drop, Ip, IsByte, AreBytes, nil, to16}
use topohub.Net.Parse.{
  finish, after_group, dotted, group, groups, scan_hex, parse_octet, parse_fields, parse_ipv4,
  parse_ipv6, by_first_separator, parse_ip, four, hex_value,
}

All-zeros : (n : ℕ) → AreBytes (replicate n 0)
All-zeros zero = tt
All-zeros (suc n) = (omega arith, All-zeros n)

if-AreBytes :
    (b : Bool) (x y : Ip)
    → (b ≡ true → AreBytes x)
    → (b ≡ false → AreBytes y)
    → AreBytes (if b then x else y)
if-AreBytes true x y hx hy = hx refl
if-AreBytes false x y hx hy = hy refl

finish-AreBytes :
    (ip : Ip) (ellipsis : Option ℕ) (s : Text) → AreBytes ip → AreBytes (finish ip ellipsis s)
unfolding finish
finish-AreBytes ip ellipsis (c ∷ s) h = tt
finish-AreBytes ip none [] h = if-AreBytes (length ip == 16) ip nil (λ _. h) (λ _. tt)
finish-AreBytes ip (some at) [] h =
    if-AreBytes (ltb (length ip) 16) (take at ip ++ replicate (16 - length ip) 0 ++ drop at ip) nil
      (λ _.
        AreBytes-append _ _
          (AreBytes-append _ _ (AreBytes-take at ip h) (All-zeros (16 - length ip)))
          (AreBytes-drop at ip h))
      (λ _. tt)

-- The value of a decimal field.
parse_octet-IsByte :
    (val len : ℕ) (s : Text) {n : ℕ} → IsByte val → parse_octet val len s ≡ some n → IsByte n
unfolding parse_octet
parse_octet-IsByte val len [] v h = ground arith
parse_octet-IsByte val len (c ∷ s) {n} v h =
    ground (arith, parse_octet-IsByte (val * 10 + (c - b'0')) (len + 1) s {n = n})

hex_value-lt : (c : ℕ) {d : ℕ} → hex_value c ≡ some d → d < 16
unfolding hex_value
hex_value-lt c h = ground arith

-- What `off` digits can stand for.
abbrev cap : ℕ → ℕ
cap zero = 1
cap (suc zero) = 16
cap (suc (suc zero)) = 256
cap (suc (suc (suc zero))) = 4096
cap (suc (suc (suc (suc n)))) = 65536

cap-suc : (off : ℕ) → off ≤ 3 → cap (off + 1) ≡ 16 * cap off
cap-suc zero h = refl
cap-suc (suc zero) h = refl
cap-suc (suc (suc zero)) h = refl
cap-suc (suc (suc (suc zero))) h = refl
cap-suc (suc (suc (suc (suc n)))) h = absurd (omega arith)

cap-le : (off : ℕ) → cap off ≤ 65536
cap-le zero = omega arith
cap-le (suc zero) = omega arith
cap-le (suc (suc zero)) = omega arith
cap-le (suc (suc (suc zero))) = omega arith
cap-le (suc (suc (suc (suc n)))) = omega arith

scan_hex-lt :
    (off acc : ℕ) (s : Text) {n v : ℕ} {rest : Text}
    → acc < cap off
    → scan_hex off acc s ≡ some (n, v, rest)
    → v < 65536
unfolding scan_hex
scan_hex-lt off acc [] h e = ground (arith, cap-le off)
scan_hex-lt off acc (c ∷ s) {n} {v} {rest} h e = elim (Option-cases (hex_value c)) [
  | inl none_left ↦ ground (arith, cap-le off)
  | inr (d, digit) ↦ ground (
    arith,
    hex_value-lt c {d = d},
    cap-suc off,
    scan_hex-lt (off + 1) (acc * 16 + d) s {n = n} {v = v} {rest = rest},
  )
]

abbrev IsByte? : Option ℕ → Type 0
IsByte? none = Unit
IsByte? (some n) = IsByte n

octet-IsByte : (s : Text) → IsByte? (parse_octet 0 0 s)
octet-IsByte s = go (parse_octet 0 0 s) refl
  where
    go : (o : Option ℕ) → parse_octet 0 0 s ≡ o → IsByte? o
    go none e = tt
    go (some n) e = parse_octet-IsByte 0 0 s (omega arith) e

four-AreBytes :
    (a b c d : Option ℕ) → IsByte? a → IsByte? b → IsByte? c → IsByte? d → AreBytes (four a b c d)
unfolding four
four-AreBytes (some a) (some b) (some c) (some d) ha hb hc hd = (ha, (hb, (hc, (hd, tt))))
four-AreBytes _ _ _ _ ha hb hc hd = tt

parse_fields-AreBytes : (ws : List Text) → AreBytes (parse_fields ws)
unfolding parse_fields
parse_fields-AreBytes (a ∷ b ∷ c ∷ d ∷ []) =
    four-AreBytes (parse_octet 0 0 a) (parse_octet 0 0 b) (parse_octet 0 0 c) (parse_octet 0 0 d)
      (octet-IsByte a) (octet-IsByte b) (octet-IsByte c) (octet-IsByte d)
parse_fields-AreBytes _ = tt

parse_ipv4-AreBytes : (s : Text) → AreBytes (parse_ipv4 s)
unfolding parse_ipv4
parse_ipv4-AreBytes s = parse_fields-AreBytes (split b'.' s)

to16-AreBytes : (ip : Ip) → AreBytes ip → AreBytes (to16 ip)
to16-AreBytes (a ∷ b ∷ c ∷ d ∷ []) h = omega arith
to16-AreBytes _ h = h

dotted-AreBytes :
    (ip : Ip) (ellipsis : Option ℕ) (s : Text) → AreBytes ip → AreBytes (dotted ip ellipsis s)
unfolding dotted
dotted-AreBytes ip ellipsis s h = tail_end (parse_ipv4 s) refl
  where
    tail_end : (quad : Ip) → parse_ipv4 s ≡ quad → AreBytes (dotted ip ellipsis s)
    tail_end [] e = ground arith
    tail_end (b ∷ bs) e =
        let all_bytes =
          finish-AreBytes (ip ++ b ∷ bs) ellipsis []
            (AreBytes-append ip (b ∷ bs) h (subst AreBytes e (parse_ipv4-AreBytes s))) in
        ground (arith, all_bytes)

-- The loop keeps bytes; `more` is its next round.
module _ (more : Ip → Option ℕ → Text → Ip)
    (ih : (ip : Ip) (e : Option ℕ) (s : Text) → AreBytes ip → AreBytes (more ip e s)) where
  after_group-AreBytes :
      (ip : Ip) (ellipsis : Option ℕ) (acc : ℕ) (s : Text)
      → acc < 65536
      → AreBytes ip
      → AreBytes (after_group more ip ellipsis acc s)
  unfolding after_group
  after_group-AreBytes ip ellipsis acc [] a h =
      finish-AreBytes _ ellipsis []
        (AreBytes-append ip ((acc / 256) ∷ (acc % 256) ∷ []) h (omega arith, (omega arith, tt)))
  after_group-AreBytes ip ellipsis acc (c ∷ []) a h = tt
  after_group-AreBytes ip ellipsis acc (c ∷ d ∷ s) a h =
      let read = ip ++ (acc / 256) ∷ (acc % 256) ∷ [] in
      let bytes : AreBytes read =
        AreBytes-append ip ((acc / 256) ∷ (acc % 256) ∷ []) h (omega arith, (omega arith, tt)) in
      ground (
        arith,
        bytes,
        ih read ellipsis (d ∷ s) bytes,
        finish-AreBytes read (some (length read)) [] bytes,
        ih read (some (length read)) s bytes,
      )

  group-AreBytes :
      (ip : Ip) (ellipsis : Option ℕ) (s : Text)
      → AreBytes ip
      → AreBytes (group more ip ellipsis s (scan_hex 0 0 s))
  unfolding group
  group-AreBytes ip ellipsis s h = go (scan_hex 0 0 s) refl
    where
      go :
          (r : Option (ℕ × ℕ × Text))
          → scan_hex 0 0 s ≡ r
          → AreBytes (group more ip ellipsis s (scan_hex 0 0 s))
      go none e = rw e tt
      go (some (off, acc, rest)) e = rw e (
          ground (
            arith,
            dotted-AreBytes ip ellipsis s h,
            after_group-AreBytes ip ellipsis acc rest
                (scan_hex-lt 0 0 s {n = off} {v = acc} {rest = rest} (omega arith) e) h,
          ))

groups-AreBytes :
    (k : ℕ) (ip : Ip) (ellipsis : Option ℕ) (s : Text)
    → AreBytes ip
    → AreBytes (groups k ip ellipsis s)
unfolding groups
groups-AreBytes zero ip ellipsis s h = finish-AreBytes ip ellipsis s h
groups-AreBytes (suc k) ip ellipsis s h =
    group-AreBytes (groups k) (groups-AreBytes k) ip ellipsis s h

parse_ipv6-AreBytes : (s : Text) → AreBytes (parse_ipv6 s)
unfolding parse_ipv6
parse_ipv6-AreBytes [] = groups-AreBytes 8 [] none [] tt
parse_ipv6-AreBytes (a ∷ []) = groups-AreBytes 8 [] none (a ∷ []) tt
parse_ipv6-AreBytes (a ∷ b ∷ s) = ground (
  arith,
  groups-AreBytes 8 [] none (a ∷ b ∷ s) tt,
  groups-AreBytes 8 [] (some 0) s tt,
  All-zeros 16,
)

by_first_separator-AreBytes : (rest s : Text) → AreBytes (by_first_separator rest s)
unfolding by_first_separator
by_first_separator-AreBytes [] s = tt
by_first_separator-AreBytes (c ∷ rest) s = ground (
  arith,
  to16-AreBytes (parse_ipv4 s) (parse_ipv4-AreBytes s),
  parse_ipv6-AreBytes s,
  by_first_separator-AreBytes rest s,
)

pub parse_ip-AreBytes : (s : Text) → AreBytes (parse_ip s)
unfolding parse_ip
parse_ip-AreBytes s = ground (arith, by_first_separator-AreBytes s s)
