-- ===== src/Net/Prefix.antt =====
-- net.IPNet, net.IPMask and net.ParseCIDR of Go's standard library.
pub mod Convex
pub mod V4
use Prim.Native.Nat.{bit_and}
use topohub.Common.{
  ℕ, zero, suc, ◌+◌, ◌-◌, ◌*◌, Bool, ◌&&◌, ◌||◌, Option, none, some, List, [], ◌∷◌, ltb, leb, ◌==◌,
  if◌then◌else◌, Text, text_eq, contains, length, take, drop, all,
}
use topohub.Net.Ip.{Ip, nil, is_nil, to4, has_v4_prefix}
use topohub.Net.Parse.{parse_ip, is_digit}

pub record IpNet : Type 0 where
  pub ip : Ip
  pub mask : List ℕ

unfoldable pub and_bytes : List ℕ → List ℕ → List ℕ
and_bytes (a ∷ s) (b ∷ t) = bit_and a b ∷ and_bytes s t
and_bytes _ _ = []

-- ip.Mask(mask)
unfoldable pub mask_ip : Ip → List ℕ → Ip
unfolding and_bytes text_eq
mask_ip ip mask =
    let m =
      if length mask == 16 && length ip == 4 && all (λ b. b == 255) (take 12 mask)
      then drop 12 mask
      else mask in
    let x = if length m == 4 && length ip == 16 && has_v4_prefix ip then drop 12 ip else ip in
    if length x == length m then and_bytes x m else nil

-- an address in its shortest form, as both sides of a comparison take it
unfoldable pub short : Ip → Ip
unfolding to4
short ip = if is_nil (to4 ip) then ip else to4 ip

-- the mask that goes with a network address of length n; nil if the lengths do not fit
unfoldable pub fit_mask : ℕ → List ℕ → List ℕ
fit_mask n mask =
    if length mask == 4
    then (if n == 4 then mask else [])
    else if length mask == 16
    then (if n == 4 then drop 12 mask else mask)
    else []

-- the loop of Contains; a network with no usable mask has the empty address
unfoldable pub same_network : Ip → List ℕ → Ip → Bool
same_network nn m x =
    if is_nil m
    then length x == 0
    else length x == length nn && text_eq (and_bytes nn m) (and_bytes x m)

-- n.Contains(ip)
unfoldable pub contains_ip : IpNet → Ip → Bool
contains_ip n ip = same_network (short n.ip) (fit_mask (length (short n.ip)) n.mask) (short ip)

-- the decimal number that is the whole text, below 0xFFFFFF
unfoldable pub parse_decimal : ℕ → ℕ → Text → Option ℕ
parse_decimal val len [] = if len == 0 then none else some val
parse_decimal val len (c ∷ s) =
    let next = val * 10 + (c - b'0') in
    let rest = parse_decimal next (len + 1) s in
    if is_digit c && ltb next 0xffffff then rest else none

-- the byte of a mask in which `n` bits are left
abbrev mask_byte : ℕ → ℕ
mask_byte n =
    if leb 8 n
    then 255
    else if n == 7
    then 254
    else if n == 6
    then 252
    else if n == 5
    then 248
    else if n == 4
    then 240
    else if n == 3
    then 224
    else if n == 2
    then 192
    else if n == 1
    then 128
    else 0

-- net.CIDRMask(ones, 8 * bytes)
unfoldable pub cidr_mask : ℕ → ℕ → List ℕ
cidr_mask ones zero = []
cidr_mask ones (suc bytes) = mask_byte ones ∷ cidr_mask (ones - 8) bytes

-- strings.Cut(s, "/")
unfoldable pub cut_slash : Text → Option (Text × Text)
cut_slash [] = none
cut_slash (c ∷ s) =
    let rest = cut_slash s in
    if c == b'/'
    then some ([], s)
    else elim rest [ none ↦ none | some (before, after) ↦ some (c ∷ before, after) ]

-- An address written with dots has 32 bits; one written with colons has 128, mapped or not.
cidr_of : Text → Ip → Option ℕ → Option (Ip × IpNet)
cidr_of addr ip none = none
cidr_of addr ip (some n) =
    let bytes : ℕ = if contains b':' addr then 16 else 4 in
    if is_nil ip || ltb (8 * bytes) n
    then none
    else some (ip, record { ip = mask_ip ip (cidr_mask n bytes); mask = cidr_mask n bytes })

-- net.ParseCIDR
unfoldable pub parse_cidr : Text → Option (Ip × IpNet)
unfolding cidr_of cut_slash
parse_cidr s = elim (cut_slash s) [
  | none ↦ none
  | some (addr, mask) ↦ cidr_of addr (parse_ip addr) (parse_decimal 0 0 mask)
]
