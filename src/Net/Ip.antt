-- ===== src/Net/Ip.antt =====
-- net.IP of Go's standard library: a slice of bytes, of length 4 or 16, or nil, which is the
-- empty list.
use Prim.Native.Nat.{compare, Ordering}
use topohub.Common.{
  ℕ, zero, suc, ◌<◌, ◌≡◌, Bool, true, false, ◌&&◌, List, [], ◌∷◌, ◌++◌, arith, ◌==◌, if◌then◌else◌,
  length, take, drop, All, text_eq, text_eq_iff,
}

abbrev pub Ip : Type 0
Ip = List ℕ

abbrev pub IsByte : ℕ → Type 0
IsByte x = x < 256

abbrev pub AreBytes : Ip → Type 0
AreBytes = All IsByte

pub AreBytes-append : (xs ys : Ip) → AreBytes xs → AreBytes ys → AreBytes (xs ++ ys)
AreBytes-append [] ys hx hy = hy
AreBytes-append (x ∷ xs) ys hx hy = (hx.0, AreBytes-append xs ys hx.1 hy)

pub AreBytes-take : (n : ℕ) (xs : Ip) → AreBytes xs → AreBytes (take n xs)
AreBytes-take zero xs h = tt
AreBytes-take (suc n) [] h = tt
AreBytes-take (suc n) (x ∷ xs) h = (h.0, AreBytes-take n xs h.1)

pub AreBytes-drop : (n : ℕ) (xs : Ip) → AreBytes xs → AreBytes (drop n xs)
AreBytes-drop zero xs h = h
AreBytes-drop (suc n) [] h = tt
AreBytes-drop (suc n) (x ∷ xs) h = AreBytes-drop n xs h.1

abbrev pub nil : Ip
nil = []

-- ip == nil
abbrev pub is_nil : Ip → Bool
is_nil [] = true
is_nil (_ ∷ _) = false

-- bytes.Compare
unfoldable pub compare_bytes : Ip → Ip → Ordering
compare_bytes [] [] = Ordering.eq
compare_bytes [] (_ ∷ _) = Ordering.lt
compare_bytes (_ ∷ _) [] = Ordering.gt
compare_bytes (a ∷ s) (b ∷ t) =
    let rest = compare_bytes s t in
    elim (compare a b) [
      | Ordering.lt ↦ Ordering.lt
      | Ordering.eq ↦ rest
      | Ordering.gt ↦ Ordering.gt
    ]

-- c <= 0, c >= 0 and c > 0 for a result c of bytes.Compare
abbrev pub is_le : Ordering → Bool
is_le Ordering.gt = false
is_le _ = true

abbrev pub is_ge : Ordering → Bool
is_ge Ordering.lt = false
is_ge _ = true

abbrev pub is_gt : Ordering → Bool
is_gt Ordering.gt = true
is_gt _ = false

abbrev pub v4_in_v6_prefix : List ℕ
v4_in_v6_prefix = 0 ∷ 0 ∷ 0 ∷ 0 ∷ 0 ∷ 0 ∷ 0 ∷ 0 ∷ 0 ∷ 0 ∷ 255 ∷ 255 ∷ []

-- the 16-byte form of an IPv4 address
abbrev pub to16 : Ip → Ip
to16 (a ∷ b ∷ c ∷ d ∷ []) = 0 ∷ 0 ∷ 0 ∷ 0 ∷ 0 ∷ 0 ∷ 0 ∷ 0 ∷ 0 ∷ 0 ∷ 255 ∷ 255 ∷ a ∷ b ∷ c ∷ d ∷ []
to16 ip = ip

abbrev pub has_v4_prefix : Ip → Bool
has_v4_prefix ip = text_eq (take 12 ip) v4_in_v6_prefix

-- ip.To4()
unfoldable pub to4 : Ip → Ip
unfolding text_eq
to4 ip =
    if length ip == 4 then ip else if length ip == 16 && has_v4_prefix ip then drop 12 ip else nil

-- ip.Equal(x)
unfoldable pub ip_equal : Ip → Ip → Bool
unfolding text_eq
ip_equal ip x =
    if length ip == length x
    then text_eq ip x
    else if length ip == 4 && length x == 16
    then has_v4_prefix x && text_eq ip (drop 12 x)
    else if length ip == 16 && length x == 4
    then has_v4_prefix ip && text_eq (drop 12 ip) x
    else false

-- On slices of one length `Equal` is equality.
pub ip_equal_iff :
    (ip x : Ip)
    → length ip ≡ length x
    → (ip_equal ip x ≡ true → ip ≡ x) × (ip ≡ x → ip_equal ip x ≡ true)
unfolding ip_equal
ip_equal_iff ip x h = (λ e. ground (arith, text_eq_iff ip x), λ e. ground (arith, text_eq_iff ip x))
