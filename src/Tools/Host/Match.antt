-- ===== src/Tools/Host/Match.antt =====
-- What the address checks of an interface accept.
use topohub.Common.{
  ℕ, ◌≡◌, refl, sym, ap, ◌∙◌, ◌⊎◌, inl, inr, true, false, some, List, [], ◌∷◌, arith, Option-cases,
  ◌>>=◌, ◌>>◌, guard, require, length, drop, any, length-drop, Text, contains, ok,
}
use topohub.Net.Ip.{Ip, nil, ip_equal, ip_equal_iff, has_v4_prefix}
use topohub.Net.Prefix.{IpNet, parse_cidr, mask_ip, contains_ip, and_bytes}
use topohub.Net.Prefix.V4.{
  IsV4Prefix, v4_parts, length-cidr_mask, parse_cidr-IsV4Prefix, contains_v4, contains_v4_nil,
}
use topohub.Tools.Range.{validate_ip_in_subnet}
use topohub.Tools.Host.{
  validate_ip_with_subnet_match, invalid_cidr, not_in_subnet, network_mismatch, Netlink, has_vlan,
  check_host_addrs, validate_host_interface_subnet,
}
use topohub.Api.{InterfaceSpec}

mask_ip_16 :
    (ip : Ip) (m : List ℕ)
    → length ip ≡ 16
    → length m ≡ 4
    → has_v4_prefix ip ≡ true
    → mask_ip ip m ≡ and_bytes (drop 12 ip) m
unfolding mask_ip
mask_ip_16 ip m h k p = ground (arith, length-drop 12 ip)

mask_ip_4 : (ip : Ip) (m : List ℕ) → length ip ≡ 4 → length m ≡ 4 → mask_ip ip m ≡ and_bytes ip m
unfolding mask_ip
mask_ip_4 ip m h k = ground arith

masks_v4 :
    (net : IpNet) (ip : Ip)
    → IsV4Prefix net
    → length ip ≡ 16
    → contains_ip net ip ≡ true
    → ip_equal (mask_ip ip net.mask) (mask_ip net.ip net.mask) ≡ true
masks_v4 net ip v h c =
    let masks : length net.mask ≡ 4 = ap length v.masks ∙ length-cidr_mask v.ones 4 in
    let p = v4_parts net ip v h c in
    let same : mask_ip ip net.mask ≡ mask_ip net.ip net.mask =
      mask_ip_16 ip net.mask h masks (ground (arith, contains_v4 net ip v h))
      ∙ sym p.1
      ∙ sym (mask_ip_4 net.ip net.mask v.short_ip masks) in
    (ip_equal_iff (mask_ip ip net.mask) (mask_ip net.ip net.mask) (ap length same)).1 same

-- For a network that `net.ParseCIDR` made of an IPv4 prefix and an address without a colon,
-- `ValidateIPWithSubnetMatch` fails exactly if the text is no CIDR or its address lies outside the
-- network: the second comparison, of the network parts, never fails, and the prefix length that the
-- text gives has no effect.
pub validate_ip_with_subnet_match-contains :
    (s : Text) (subnet : IpNet)
    → contains b':' s ≡ false
    → IsV4Prefix subnet
    → validate_ip_with_subnet_match s subnet ≡ (
        require (parse_cidr s) (invalid_cidr s) >>= λ p.
        guard (contains_ip subnet p.0) (not_in_subnet p.0))
unfolding validate_ip_with_subnet_match validate_ip_in_subnet
validate_ip_with_subnet_match-contains s subnet h v = elim (Option-cases (parse_cidr s)) [
  | inl z ↦ rw z refl
  | inr ((ip, net), z) ↦ rw z (second ip (parse_cidr-IsV4Prefix s ip net h z).1)
]
  where
    second :
        (ip : Ip)
        → (ip ≡ nil) ⊎ (length ip ≡ 16)
        → (guard (contains_ip subnet ip) (not_in_subnet ip)
            >> guard
                (ip_equal (mask_ip ip subnet.mask) (mask_ip subnet.ip subnet.mask))
                (network_mismatch ip))
          ≡ guard (contains_ip subnet ip) (not_in_subnet ip)
    second ip (inl n) = rw n (rw (contains_v4_nil subnet v) refl)
    second ip (inr l) = ground (arith, masks_v4 subnet ip v l)

module _ {Addr : Type 0} (netlink : Netlink Addr) where
  loop_vlan :
      (iface : InterfaceSpec) (a : Addr) (addrs : List Addr)
      → has_vlan iface ≡ true
      → check_host_addrs netlink iface a addrs ≡ ok tt
      → any (λ h. contains_ip (netlink.ip_net h) (netlink.ip_net a).ip) addrs ≡ false
  unfolding check_host_addrs
  loop_vlan iface a [] v h = refl
  loop_vlan iface a (x ∷ addrs) v h = ground (arith, loop_vlan iface a addrs v)

  -- An interface with a VLAN id above 0 is accepted only with an address that lies in the network of
  -- no address of the host's interface, so that the VLAN cannot take over the host's own network.
  pub validate_host_interface_subnet-apart :
      (iface : InterfaceSpec) (addrs : List Addr) (a : Addr)
      → netlink.parse_addr iface.ipv4 ≡ some a
      → has_vlan iface ≡ true
      → validate_host_interface_subnet netlink (some addrs) iface ≡ ok tt
      → any (λ h. contains_ip (netlink.ip_net h) (netlink.ip_net a).ip) addrs ≡ false
  unfolding validate_host_interface_subnet
  validate_host_interface_subnet-apart iface addrs a p v h = loop_vlan iface a addrs v (rw p at h)
