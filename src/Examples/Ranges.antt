-- ===== src/Examples/Ranges.antt =====
-- Runs of pkg/tools on concrete ranges.
use topohub.Common.{
  ◌^◌, ◌<◌, ◌≡◌, refl, true, false, [], ◌∷◌, arith, ◌>>=◌, guard, require, is_ok, all, All, Text,
  codes, text_eq, contains, split, trim_space, ok,
}
use topohub.Net.Ip.{Ip, to16, compare_bytes, to4}
use topohub.Net.Prefix.{
  IpNet, cidr_mask, contains_ip, short, fit_mask, same_network, parse_cidr, and_bytes,
}
use topohub.Net.Prefix.V4.{IsV4Prefix}
use topohub.Tools.Range.{
  validate_ip_range, is_ip_in_range, validate_ip_in_subnet, check_ends, in_range, check_range,
  check_single, in_ends, is_single, compare_ip,
}
use topohub.Tools.Range.Spans.{is_ip_in_range-eq-in_union, in_union, bounds}
use topohub.Tools.Range.Accepted.{validate_ip_range-is_within, is_within}
use topohub.Tools.Range.Inside.{validate_ip_range-contains}
use topohub.Net.Parse.{parse_ip}
use topohub.Tools.Count.{
  count_ips_in_range, u64, count_parts, count_part, count_ends, ip_to_uint32, count_single,
}
use topohub.Tools.Count.Sizes.{size, sizes, count_ips_in_range-sizes}
use topohub.Tools.Host.{validate_ip_with_subnet_match, invalid_cidr, not_in_subnet}
use topohub.Tools.Host.Match.{validate_ip_with_subnet_match-contains}

abbrev network : IpNet
network = record { ip = 192 ∷ 168 ∷ 1 ∷ 0 ∷ []; mask = 255 ∷ 255 ∷ 255 ∷ 0 ∷ [] }

abbrev address : Ip
address = to16 (192 ∷ 168 ∷ 1 ∷ 15 ∷ [])

abbrev range : Text
range = codes "192.168.1.10-192.168.1.20"

abbrev wider : Text
wider = codes "192.168.1.5-192.168.1.20,192.168.1.30"

network-IsV4Prefix : IsV4Prefix network
unfolding cidr_mask
network-IsV4Prefix = record { ones = 24; short_ip = refl; masks = refl }

address_in_range : is_ip_in_range address range ≡ true
unfolding is_ip_in_range in_range in_ends is_single parse_ip trim_space split contains text_eq
    compare_bytes compare_ip
address_in_range = refl

range_ok : is_ok (validate_ip_range range network) ≡ true
unfolding validate_ip_range check_range check_ends check_single parse_ip trim_space split contains
    contains_ip short to4 fit_mask same_network and_bytes text_eq compare_bytes
    validate_ip_in_subnet
range_ok = refl

validate_ip_range-contains_example : validate_ip_in_subnet address network ≡ true
validate_ip_range-contains_example =
    validate_ip_range-contains range network address network-IsV4Prefix refl (omega arith) range_ok
      address_in_range

validate_ip_range-is_within_example :
    is_ok (validate_ip_range range network)
    ≡ all (λ r. is_within network (bounds r)) (split b',' range)
validate_ip_range-is_within_example = validate_ip_range-is_within range network

is_ip_in_range-eq-in_union_example : is_ip_in_range address wider ≡ in_union address wider
is_ip_in_range-eq-in_union_example = is_ip_in_range-eq-in_union address wider refl

range_count : is_ok (count_ips_in_range range) ≡ true
unfolding count_ips_in_range count_parts count_part count_ends count_single parse_ip trim_space
    split contains to4 compare_bytes ip_to_uint32
range_count = refl

range_sizes : All (λ r. size (bounds r) < 2 ^ 32) (split b',' range)
unfolding split bounds parse_ip trim_space contains ip_to_uint32 to4
range_sizes = omega arith

count_ips_in_range-sizes_example : count_ips_in_range range ≡ ok (u64 (sizes (split b',' range)))
count_ips_in_range-sizes_example = count_ips_in_range-sizes range range_sizes range_count

no_colon : contains b':' (codes "192.168.1.100/16") ≡ false
unfolding contains
no_colon = refl

validate_ip_with_subnet_match-contains_example :
    validate_ip_with_subnet_match (codes "192.168.1.100/16") network ≡ (
      require (parse_cidr (codes "192.168.1.100/16")) (invalid_cidr (codes "192.168.1.100/16"))
      >>= λ p. guard (contains_ip network p.0) (not_in_subnet p.0))
validate_ip_with_subnet_match-contains_example =
    validate_ip_with_subnet_match-contains (codes "192.168.1.100/16") network no_colon
      network-IsV4Prefix
