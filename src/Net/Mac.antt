-- ===== src/Net/Mac.antt =====
-- net.ParseMAC of Go's standard library, for the separators that the program can pass.
use topohub.Common.{
  ℕ, zero, suc, ◌+◌, ◌*◌, ◌/◌, ◌%◌, Bool, ◌&&◌, ◌||◌, Option, none, some, List, [], ◌∷◌, ltb, ◌==◌,
  if◌then◌else◌, Text, length, get_or,
}
use topohub.Net.Parse.{hex_value}

-- xtoi2: two hexadecimal digits
abbrev byte_of : Option ℕ → Option ℕ → Option ℕ
byte_of (some a) (some b) = some (a * 16 + b)
byte_of _ _ = none

abbrev cons? : Option ℕ → Option (List ℕ) → Option (List ℕ)
cons? (some b) (some bs) = some (b ∷ bs)
cons? _ _ = none

-- `n` bytes of two digits with `sep` between them
unfoldable pub colon_bytes : ℕ → ℕ → Text → Option (List ℕ)
unfolding hex_value
colon_bytes sep zero s = some []
colon_bytes sep (suc n) (a ∷ b ∷ []) =
    cons? (byte_of (hex_value a) (hex_value b)) (colon_bytes sep n [])
colon_bytes sep (suc n) (a ∷ b ∷ e ∷ s) =
    let rest = colon_bytes sep n s in
    if e == sep then cons? (byte_of (hex_value a) (hex_value b)) rest else none
colon_bytes sep (suc n) _ = none

-- `n` pairs of bytes, four digits each, with dots between them
unfoldable pub dot_bytes : ℕ → Text → Option (List ℕ)
unfolding hex_value
dot_bytes zero s = some []
dot_bytes (suc n) (a ∷ b ∷ c ∷ d ∷ []) =
    cons? (byte_of (hex_value a) (hex_value b))
      (cons? (byte_of (hex_value c) (hex_value d)) (dot_bytes n []))
dot_bytes (suc n) (a ∷ b ∷ c ∷ d ∷ e ∷ s) =
    let rest = dot_bytes n s in
    if e == b'.'
    then cons? (byte_of (hex_value a) (hex_value b))
        (cons? (byte_of (hex_value c) (hex_value d)) rest)
    else none
dot_bytes (suc n) _ = none

abbrev is_mac_size : ℕ → Bool
is_mac_size n = n == 6 || n == 8 || n == 20

unfoldable pub parse_mac : Text → Option (List ℕ)
unfolding colon_bytes dot_bytes
parse_mac s =
    let third = get_or s 2 0 in
    let n = (length s + 1) / 3 in
    let m = 2 * (length s + 1) / 5 in
    if ltb (length s) 14
    then none
    else if third == b':' || third == b'-'
    then (if (length s + 1) % 3 == 0 && is_mac_size n then colon_bytes third n s else none)
    else if get_or s 4 0 == b'.'
    then (if (length s + 1) % 5 == 0 && is_mac_size m then dot_bytes (m / 2) s else none)
    else none
