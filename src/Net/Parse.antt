-- ===== src/Net/Parse.antt =====
-- net.ParseIP of Go's standard library, which is netip.ParseAddr without a zone: dotted decimal,
-- or up to eight groups of hexadecimal digits with one `::` and possibly a dotted tail. The result
-- has 16 bytes, or is nil.
pub mod Size
pub mod Bytes
pub mod Dotted
use topohub.Common.{
  ℕ, zero, suc, ◌+◌, ◌-◌, ◌*◌, ◌/◌, ◌%◌, Bool, false, not, ◌&&◌, Option, none, some, List, [], ◌∷◌,
  ◌++◌, ltb, leb, ◌==◌, if◌then◌else◌, Text, contains, split, is_empty, is_some, length, take, drop,
  replicate,
}
use topohub.Net.Ip.{Ip, nil, to16}

abbrev pub is_digit : ℕ → Bool
is_digit c = leb b'0' c && leb c b'9'

-- One decimal field: `val` and `len` are the value and the number of the digits read.
unfoldable pub parse_octet : ℕ → ℕ → Text → Option ℕ
parse_octet val len [] = if len == 0 then none else some val
parse_octet val len (c ∷ s) =
    let next = val * 10 + (c - b'0') in
    let rest = parse_octet next (len + 1) s in
    if is_digit c && not (len == 1 && val == 0) && leb next 255 then rest else none

four : Option ℕ → Option ℕ → Option ℕ → Option ℕ → Ip
four (some a) (some b) (some c) (some d) = a ∷ b ∷ c ∷ d ∷ []
four _ _ _ _ = nil

parse_fields : List Text → Ip
parse_fields (a ∷ b ∷ c ∷ d ∷ []) =
    four (parse_octet 0 0 a) (parse_octet 0 0 b) (parse_octet 0 0 c) (parse_octet 0 0 d)
parse_fields _ = nil

-- the four bytes of a dotted address, or nil
unfoldable pub parse_ipv4 : Text → Ip
unfolding parse_fields four parse_octet split
parse_ipv4 s = parse_fields (split b'.' s)

unfoldable pub hex_value : ℕ → Option ℕ
hex_value c =
    if leb b'0' c && leb c b'9'
    then some (c - 48)
    else if leb b'a' c && leb c b'f'
    then some (c - 87)
    else if leb b'A' c && leb c b'F'
    then some (c - 55)
    else none

-- The digits of a group: how many, their value and the text behind them; none after four digits.
scan_hex : ℕ → ℕ → Text → Option (ℕ × ℕ × Text)
unfolding hex_value
scan_hex off acc [] = some (off, acc, [])
scan_hex off acc (c ∷ s) = elim (hex_value c) [
  | none ↦ some (off, acc, c ∷ s)
  | some d ↦ if ltb 3 off then none else scan_hex (off + 1) (acc * 16 + d) s
]

-- The end of the loop: the text must be used up, and `::` stands for at least one group.
finish : Ip → Option ℕ → Text → Ip
finish ip ellipsis (_ ∷ _) = nil
finish ip none [] = if length ip == 16 then ip else nil
finish ip (some at) [] =
    if ltb (length ip) 16 then take at ip ++ replicate (16 - length ip) 0 ++ drop at ip else nil

-- What stands behind the group `acc`; `more` goes on with the next one.
after_group : (Ip → Option ℕ → Text → Ip) → Ip → Option ℕ → ℕ → Text → Ip
after_group more ip ellipsis acc [] = finish (ip ++ (acc / 256) ∷ (acc % 256) ∷ []) ellipsis []
after_group more ip ellipsis acc (c ∷ []) = nil
after_group more ip ellipsis acc (c ∷ d ∷ s) =
    let read = ip ++ (acc / 256) ∷ (acc % 256) ∷ [] in
    if not (c == b':')
    then nil
    else if not (d == b':')
    then more read ellipsis (d ∷ s)
    else if is_some ellipsis
    then nil
    else if is_empty s
    then finish read (some (length read)) []
    else more read (some (length read)) s

-- A dotted tail takes the place of the last two groups.
dotted : Ip → Option ℕ → Text → Ip
dotted ip ellipsis s =
    if not (is_some ellipsis) && not (length ip == 12)
    then nil
    else if ltb 12 (length ip)
    then nil
    else elim (parse_ipv4 s) [ [] ↦ nil | b ∷ bs ↦ finish (ip ++ b ∷ bs) ellipsis [] ]

abbrev starts_with_dot : Text → Bool
starts_with_dot [] = false
starts_with_dot (c ∷ s) = c == b'.'

group : (Ip → Option ℕ → Text → Ip) → Ip → Option ℕ → Text → Option (ℕ × ℕ × Text) → Ip
group more ip ellipsis s none = nil
group more ip ellipsis s (some (off, acc, rest)) =
    if off == 0
    then nil
    else if starts_with_dot rest
    then dotted ip ellipsis s
    else after_group more ip ellipsis acc rest

-- At most `k` groups are left.
groups : ℕ → Ip → Option ℕ → Text → Ip
groups zero ip ellipsis s = finish ip ellipsis s
groups (suc k) ip ellipsis s = group (groups k) ip ellipsis s (scan_hex 0 0 s)

unfoldable pub parse_ipv6 : Text → Ip
unfolding groups group after_group dotted finish scan_hex parse_ipv4
parse_ipv6 (a ∷ b ∷ s) =
    if not (a == b':' && b == b':')
    then groups 8 [] none (a ∷ b ∷ s)
    else if is_empty s
    then replicate 16 0
    else groups 8 [] (some 0) s
parse_ipv6 s = groups 8 [] none s

-- The first of `.`, `:` and `%` decides the form; a zone is refused.
by_first_separator : Text → Text → Ip
unfolding parse_ipv4 parse_ipv6
by_first_separator [] s = nil
by_first_separator (c ∷ rest) s =
    if c == b'.'
    then to16 (parse_ipv4 s)
    else if c == b':'
    then parse_ipv6 s
    else by_first_separator rest s

unfoldable pub parse_ip : Text → Ip
unfolding by_first_separator contains
parse_ip s = if contains b'%' s then nil else by_first_separator s s
