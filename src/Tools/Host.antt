-- ===== src/Tools/Host.antt =====
-- pkg/tools/tools.go: the address of the DHCP server on the host's interface.
pub mod Match
use topohub.Common.{
  Bool, false, not, ◌&&◌, Option, none, some, List, [], ◌∷◌, if◌then◌else◌, Result, ◌>>=◌, ◌>>◌,
  guard, require, Text, is_positive, ok,
}
use topohub.Net.Ip.{Ip, is_nil, to4, ip_equal}
use topohub.Net.Parse.{parse_ip}
use topohub.Net.Prefix.{IpNet, parse_cidr, mask_ip, contains_ip}
use topohub.Tools.Range.{validate_ip_in_subnet}
use topohub.Api.{InterfaceSpec}

-- The errors of ValidateIPWithSubnetMatch.
pub data MatchError : Type 0 where
  invalid_cidr : Text → MatchError
  not_in_subnet network_mismatch : Ip → MatchError

-- ValidateIPWithSubnetMatch
unfoldable pub validate_ip_with_subnet_match : Text → IpNet → Result MatchError (Unit {0})
unfolding validate_ip_in_subnet
validate_ip_with_subnet_match ip_cidr subnet =
    require (parse_cidr ip_cidr) (invalid_cidr ip_cidr) >>= λ p.
    guard (validate_ip_in_subnet p.0 subnet) (not_in_subnet p.0)
    >> guard (ip_equal (mask_ip p.0 subnet.mask) (mask_ip subnet.ip subnet.mask))
        (network_mismatch p.0)

-- IsValidIPv4
unfoldable pub is_valid_ipv4 : Text → Bool
unfolding to4
is_valid_ipv4 ip_str = not (is_nil (parse_ip ip_str)) && not (is_nil (to4 (parse_ip ip_str)))

-- What the code takes of the netlink package: its addresses with their network, ParseAddr and
-- Addr.Equal.
pub record Netlink (Addr : Type 0) : Type 0 where
  pub ip_net : Addr → IpNet
  pub parse_addr : Text → Option Addr
  pub equal : Addr → Addr → Bool

-- The errors of ValidateHostInterfaceSubnet.
pub data HostError (Addr : Type 0) : Type 0 where
  addr_list_failed : HostError Addr
  invalid_subnet_addr : Text → HostError Addr
  vlan_not_allowed no_exact_match : Addr → HostError Addr

abbrev pub has_vlan : InterfaceSpec → Bool
has_vlan iface = elim (iface.vlan_id) [ none ↦ false | some v ↦ is_positive v ]

module _ {Addr : Type 0} (netlink : Netlink Addr) where
  -- the loop over the host's addresses
  unfoldable pub check_host_addrs :
      InterfaceSpec → Addr → List Addr → Result (HostError Addr) (Unit {0})
  check_host_addrs iface subnet_addr [] = ok tt
  check_host_addrs iface subnet_addr (host_addr ∷ rest) =
      let others = check_host_addrs iface subnet_addr rest in
      if contains_ip (netlink.ip_net host_addr) (netlink.ip_net subnet_addr).ip
      then guard (not (has_vlan iface)) (vlan_not_allowed host_addr)
        >> guard (netlink.equal host_addr subnet_addr) (no_exact_match host_addr)
      else others

  -- ValidateHostInterfaceSubnet; `host_addrs` is the answer of netlink.AddrList
  unfoldable pub validate_host_interface_subnet :
      Option (List Addr) → InterfaceSpec → Result (HostError Addr) (Unit {0})
  validate_host_interface_subnet host_addrs iface = require host_addrs addr_list_failed >>= λ addrs.
      require (netlink.parse_addr iface.ipv4) (invalid_subnet_addr iface.ipv4) >>= λ subnet_addr.
      check_host_addrs iface subnet_addr addrs
