-- ===== src/Net/Prefix/V4.antt =====
-- IPv4 prefixes: what net.ParseCIDR makes of an address without a colon, and how Contains and Mask
-- act on them.
use topohub.Common.{
  ℕ, zero, suc, ◌-◌, ◌≡◌, refl, sym, ap, subst, ◌∙◌, ◌⊎◌, inl, inr, Bool, true, false, ◌&&◌, Option,
  none, some, List, [], ◌∷◌, arith, ◌==◌, if◌then◌else◌, Option-cases, length, take, drop,
  length-drop, Text, text_eq, text_eq_iff, contains,
}
use topohub.Net.Ip.{Ip, nil, to4, to16, has_v4_prefix, v4_in_v6_prefix}
use topohub.Net.Parse.{parse_ip}
use topohub.Net.Parse.Dotted.{parse_ip_no_colon}
use topohub.Net.Prefix.{
  IpNet, contains_ip, and_bytes, cidr_mask, mask_ip, short, fit_mask, same_network, parse_decimal,
  cidr_of, cut_slash, parse_cidr,
}

-- An IPv4 prefix as net.ParseCIDR makes it.
pub record IsV4Prefix (net : IpNet) : Type 0 where
  pub ones : ℕ
  pub short_ip : length net.ip ≡ 4
  pub masks : net.mask ≡ cidr_mask ones 4

pub short_v4 : (ip : Ip) → length ip ≡ 4 → short ip ≡ ip
unfolding short to4
short_v4 ip h = ground arith

pub short_v6 : (ip : Ip) → length ip ≡ 16 → short ip ≡ (if has_v4_prefix ip then drop 12 ip else ip)
unfolding short to4
short_v6 ip h = ground (arith, length-drop 12 ip)

pub length-cidr_mask : (ones n : ℕ) → length (cidr_mask ones n) ≡ n
unfolding cidr_mask
length-cidr_mask ones zero = refl
length-cidr_mask ones (suc n) = omega (arith, length-cidr_mask (ones - 8) n)

pub fit_mask_v4 : (m : List ℕ) → length m ≡ 4 → fit_mask 4 m ≡ m
unfolding fit_mask
fit_mask_v4 m h = ground arith

same_network_v4 :
    (nn m x : Ip)
    → length nn ≡ 4
    → length m ≡ 4
    → same_network nn m x ≡ (length x == 4 && text_eq (and_bytes nn m) (and_bytes x m))
unfolding same_network
same_network_v4 nn m x h k = ground arith

-- Membership of a 16-byte address in an IPv4 prefix.
pub contains_v4 :
    (net : IpNet) (ip : Ip)
    → IsV4Prefix net
    → length ip ≡ 16
    → contains_ip net ip
      ≡ (has_v4_prefix ip && text_eq (and_bytes net.ip net.mask) (and_bytes (drop 12 ip) net.mask))
unfolding contains_ip
contains_v4 net ip v h =
    let masks : length net.mask ≡ 4 = ap length v.masks ∙ length-cidr_mask v.ones 4 in
    rw (short_v4 net.ip v.short_ip, v.short_ip, fit_mask_v4 net.mask masks, short_v6 ip h)
      (same_network_v4 net.ip net.mask (if has_v4_prefix ip then drop 12 ip else ip) v.short_ip
          masks
        ∙ by_prefix (has_v4_prefix ip))
  where
    by_prefix :
        (b : Bool)
        → (length (if b then drop 12 ip else ip) == 4
            && text_eq
                (and_bytes net.ip net.mask)
                (and_bytes (if b then drop 12 ip else ip) net.mask))
          ≡ (b && text_eq (and_bytes net.ip net.mask) (and_bytes (drop 12 ip) net.mask))
    by_prefix true = ground (arith, length-drop 12 ip)
    by_prefix false = ground arith

short-nil : short nil ≡ nil
unfolding short to4
short-nil = refl

pub contains_v4_nil : (net : IpNet) → IsV4Prefix net → contains_ip net nil ≡ false
unfolding contains_ip
contains_v4_nil net v =
    let masks : length net.mask ≡ 4 = ap length v.masks ∙ length-cidr_mask v.ones 4 in
    rw (short_v4 net.ip v.short_ip, v.short_ip, fit_mask_v4 net.mask masks, short-nil)
      (same_network_v4 net.ip net.mask nil v.short_ip masks)

pub v4_parts :
    (net : IpNet) (ip : Ip)
    → IsV4Prefix net
    → length ip ≡ 16
    → contains_ip net ip ≡ true
    → (take 12 ip ≡ v4_in_v6_prefix) × (and_bytes net.ip net.mask ≡ and_bytes (drop 12 ip) net.mask)
v4_parts net ip v h c = (
  (text_eq_iff (take 12 ip) v4_in_v6_prefix).0 (ground (arith, contains_v4 net ip v h)),
  (text_eq_iff (and_bytes net.ip net.mask) (and_bytes (drop 12 ip) net.mask)).0
      (ground (arith, contains_v4 net ip v h)),
)

mask_ip_v4 :
    (a b c d : ℕ) (m : List ℕ)
    → length m ≡ 4
    → mask_ip (to16 (a ∷ b ∷ c ∷ d ∷ [])) m ≡ and_bytes (a ∷ b ∷ c ∷ d ∷ []) m
unfolding mask_ip
mask_ip_v4 a b c d m h = ground arith

length-and_bytes : (s m : List ℕ) → length s ≡ length m → length (and_bytes s m) ≡ length m
unfolding and_bytes
length-and_bytes [] [] h = refl
length-and_bytes [] (y ∷ m) h = h
length-and_bytes (x ∷ s) [] h = refl
length-and_bytes (x ∷ s) (y ∷ m) h = omega (arith, length-and_bytes s m (omega arith))

-- net.ParseCIDR makes an IPv4 prefix of an address without a colon.
cidr_of-IsV4Prefix :
    (addr : Text) (ip : Ip) (ones : Option ℕ) (q : Ip) (net : IpNet)
    → contains b':' addr ≡ false
    → (ip ≡ nil) ⊎ ((a : ℕ) × (b : ℕ) × (c : ℕ) × (d : ℕ) × (ip ≡ to16 (a ∷ b ∷ c ∷ d ∷ [])))
    → cidr_of addr ip ones ≡ some (q, net)
    → IsV4Prefix net × (q ≡ ip)
unfolding cidr_of
cidr_of-IsV4Prefix addr ip none q net h v e = cc
cidr_of-IsV4Prefix addr ip (some n) q net h (inl z) e = ground arith
cidr_of-IsV4Prefix addr ip (some n) q net h (inr (a, b, c, d, m)) e = (
  record {
    ones = n;
    short_ip =
        ap (λ (t : IpNet). length t.ip) built
        ∙ rw m (
            rw (mask_ip_v4 a b c d (cidr_mask n 4) (length-cidr_mask n 4)) (
              length-and_bytes (a ∷ b ∷ c ∷ d ∷ []) (cidr_mask n 4) (sym (length-cidr_mask n 4))
              ∙ length-cidr_mask n 4));
    masks = ap (λ (t : IpNet). t.mask) built;
  },
  ground arith,
)
  where
    built : net ≡ record { ip = mask_ip ip (cidr_mask n 4); mask = cidr_mask n 4 }
    built = ground arith

-- `s` has no colon, as the pattern of the resource definitions demands.
cut_slash-no_colon :
    (s before after : Text)
    → contains b':' s ≡ false
    → cut_slash s ≡ some (before, after)
    → contains b':' before ≡ false
unfolding contains cut_slash
cut_slash-no_colon [] before after h e = cc
cut_slash-no_colon (c ∷ s) before after h e = elim (Option-cases (cut_slash s)) [
  | inl z ↦ ground arith
  | inr ((b, a), z) ↦ ground (arith, cut_slash-no_colon s b a (ground arith) z)
]

pub parse_cidr-IsV4Prefix :
    (s : Text) (ip : Ip) (net : IpNet)
    → contains b':' s ≡ false
    → parse_cidr s ≡ some (ip, net)
    → IsV4Prefix net × ((ip ≡ nil) ⊎ (length ip ≡ 16))
unfolding parse_cidr
parse_cidr-IsV4Prefix s ip net h e = elim (Option-cases (cut_slash s)) [
  | inl z ↦ ground arith
  | inr ((addr, m), z) ↦ by_address addr m (cut_slash-no_colon s addr m h z) (
      subst
        (λ o.
          elim o [ none ↦ none | some (a, k) ↦ cidr_of a (parse_ip a) (parse_decimal 0 0 k) ]
          ≡ some (ip, net))
        z e)
]
  where
    by_address :
        (addr m : Text)
        → contains b':' addr ≡ false
        → cidr_of addr (parse_ip addr) (parse_decimal 0 0 m) ≡ some (ip, net)
        → IsV4Prefix net × ((ip ≡ nil) ⊎ (length ip ≡ 16))
    by_address addr m k q =
        let v =
          cidr_of-IsV4Prefix addr (parse_ip addr) (parse_decimal 0 0 m) ip net k
            (parse_ip_no_colon addr k) q in
        (
          v.0,
          elim (parse_ip_no_colon addr k) [
            | inl z ↦ inl (v.1 ∙ z)
            | inr (a, b, c, d, z) ↦ inr (ap length (v.1 ∙ z))
          ],
        )
