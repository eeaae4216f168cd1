-- ===== src/Net/Parse/Size.antt =====
-- Every address that net.ParseIP returns has 16 bytes, or is nil.
use topohub.Common.{
  ℕ, zero, suc, ◌+◌, ◌-◌, ◌/◌, ◌%◌, if◌then◌else◌, ◌≡◌, refl, ◌⊎◌, inl, inr, Bool, true, false,
  Option, none, some, List, [], ◌∷◌, ◌++◌, arith, ltb, Text, length, take, drop, replicate,
  length-append, split,
}
use topohub.Net.Ip.{Ip, nil, to16}
use topohub.Net.Parse.{
  finish, after_group, dotted, group, groups, scan_hex, parse_fields, parse_ipv4, parse_ipv6,
  by_first_separator, parse_ip, four,
}

abbrev pub IsWellSized : Ip → Type 0
IsWellSized ip = (ip ≡ nil) ⊎ (length ip ≡ 16)

length-take-drop : (n : ℕ) (xs : List ℕ) → length (take n xs) + length (drop n xs) ≡ length xs
length-take-drop zero xs = omega arith
length-take-drop (suc n) [] = omega arith
length-take-drop (suc n) (x ∷ xs) = omega (arith, length-take-drop n xs)

length-replicate : (n a : ℕ) → length (replicate n a) ≡ n
length-replicate zero a = refl
length-replicate (suc n) a = omega (arith, length-replicate n a)

nil-IsWellSized : IsWellSized nil
nil-IsWellSized = inl refl

if-IsWellSized :
    (b : Bool) {x y : Ip}
    → (b ≡ true → IsWellSized x)
    → IsWellSized y
    → IsWellSized (if b then x else y)
if-IsWellSized true hx hy = hx refl
if-IsWellSized false hx hy = hy

finish-IsWellSized : (ip : Ip) (ellipsis : Option ℕ) (s : Text) → IsWellSized (finish ip ellipsis s)
unfolding finish
finish-IsWellSized ip ellipsis (c ∷ s) = inl refl
finish-IsWellSized ip none [] = ground arith
finish-IsWellSized ip (some at) [] =
    if-IsWellSized (ltb (length ip) 16) (λ h. inr (filled h)) (inl refl)
  where
    filled :
        ltb (length ip) 16 ≡ true
        → length (take at ip ++ replicate (16 - length ip) 0 ++ drop at ip) ≡ 16
    filled h = ground (
      arith,
      length-append (take at ip ++ replicate (16 - length ip) 0) (drop at ip),
      length-append (take at ip) (replicate (16 - length ip) 0),
      length-replicate (16 - length ip) 0,
      length-take-drop at ip,
    )

dotted-IsWellSized : (ip : Ip) (ellipsis : Option ℕ) (s : Text) → IsWellSized (dotted ip ellipsis s)
unfolding dotted
dotted-IsWellSized ip ellipsis s = tail_end (parse_ipv4 s) refl
  where
    tail_end : (quad : Ip) → parse_ipv4 s ≡ quad → IsWellSized (dotted ip ellipsis s)
    tail_end [] e = ground arith
    tail_end (b ∷ bs) e = ground (arith, finish-IsWellSized (ip ++ b ∷ bs) ellipsis [])

module _ (more : Ip → Option ℕ → Text → Ip)
    (ih : (ip : Ip) (e : Option ℕ) (s : Text) → IsWellSized (more ip e s)) where
  after_group-IsWellSized :
      (ip : Ip) (ellipsis : Option ℕ) (acc : ℕ) (s : Text)
      → IsWellSized (after_group more ip ellipsis acc s)
  unfolding after_group
  after_group-IsWellSized ip ellipsis acc [] = finish-IsWellSized _ ellipsis []
  after_group-IsWellSized ip ellipsis acc (c ∷ []) = nil-IsWellSized
  after_group-IsWellSized ip ellipsis acc (c ∷ d ∷ s) =
      let read = ip ++ (acc / 256) ∷ (acc % 256) ∷ [] in
      ground (
        arith,
        ih read ellipsis (d ∷ s),
        finish-IsWellSized read (some (length read)) [],
        ih read (some (length read)) s,
      )

  group-IsWellSized :
      (ip : Ip) (ellipsis : Option ℕ) (s : Text) (r : Option (ℕ × ℕ × Text))
      → IsWellSized (group more ip ellipsis s r)
  unfolding group
  group-IsWellSized ip ellipsis s none = nil-IsWellSized
  group-IsWellSized ip ellipsis s (some (off, acc, rest)) =
      ground (arith, dotted-IsWellSized ip ellipsis s, after_group-IsWellSized ip ellipsis acc rest)

groups-IsWellSized :
    (k : ℕ) (ip : Ip) (ellipsis : Option ℕ) (s : Text) → IsWellSized (groups k ip ellipsis s)
unfolding groups
groups-IsWellSized zero ip ellipsis s = finish-IsWellSized ip ellipsis s
groups-IsWellSized (suc k) ip ellipsis s =
    group-IsWellSized (groups k) (groups-IsWellSized k) ip ellipsis s (scan_hex 0 0 s)

parse_ipv6-IsWellSized : (s : Text) → IsWellSized (parse_ipv6 s)
unfolding parse_ipv6
parse_ipv6-IsWellSized [] = groups-IsWellSized 8 [] none []
parse_ipv6-IsWellSized (a ∷ []) = groups-IsWellSized 8 [] none (a ∷ [])
parse_ipv6-IsWellSized (a ∷ b ∷ s) =
    ground (arith, groups-IsWellSized 8 [] none (a ∷ b ∷ s), groups-IsWellSized 8 [] (some 0) s)

four-IsWellSized : (a b c d : Option ℕ) → IsWellSized (to16 (four a b c d))
unfolding four
four-IsWellSized (some a) (some b) (some c) (some d) = inr refl
four-IsWellSized _ _ _ _ = inl refl

parse_fields-IsWellSized : (ws : List Text) → IsWellSized (to16 (parse_fields ws))
unfolding parse_fields
parse_fields-IsWellSized (a ∷ b ∷ c ∷ d ∷ []) = four-IsWellSized _ _ _ _
parse_fields-IsWellSized _ = inl refl

parse_ipv4-IsWellSized : (s : Text) → IsWellSized (to16 (parse_ipv4 s))
unfolding parse_ipv4
parse_ipv4-IsWellSized s = parse_fields-IsWellSized (split b'.' s)

by_first_separator-IsWellSized : (rest s : Text) → IsWellSized (by_first_separator rest s)
unfolding by_first_separator
by_first_separator-IsWellSized [] s = nil-IsWellSized
by_first_separator-IsWellSized (c ∷ rest) s = ground (
  arith,
  parse_ipv4-IsWellSized s,
  parse_ipv6-IsWellSized s,
  by_first_separator-IsWellSized rest s,
)

pub parse_ip-IsWellSized : (s : Text) → IsWellSized (parse_ip s)
unfolding parse_ip
parse_ip-IsWellSized s = ground (arith, by_first_separator-IsWellSized s s)
