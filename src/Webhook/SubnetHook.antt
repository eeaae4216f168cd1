-- ===== src/Webhook/SubnetHook.antt =====
-- pkg/webhook/subnet/webhook.go: defaults and admission of a Subnet. The `if !ok` branches, for an
-- object of another type, do not arise for a typed argument.
pub mod Update
pub mod Defaults
pub mod Apart
use topohub.Common.{
  Bool, not, Option, none, some, List, if◌then◌else◌, Result, ◌>>=◌, ◌>>◌, guard, require, wrap,
  for_each, Text, text_eq, is_empty, ℤ, int_eq, in_bounds, ok, pos, err,
}
use topohub.Api.{Subnet, InterfaceSpec, set_label, text_of, label_cluster_name}
use topohub.Net.Ip.{is_nil}
use topohub.Net.Parse.{parse_ip}
use topohub.Net.Prefix.{IpNet, parse_cidr}
use topohub.Tools.Range.{
  RangeError, ExpansionError, validate_ip_in_subnet, validate_ip_range, validate_ip_range_expansion,
}
use topohub.Tools.Mac.{InterfaceError, validate_interface_exists, int32_ptr_equal}
use topohub.Tools.Host.{
  MatchError, validate_ip_with_subnet_match, Netlink, HostError, validate_host_interface_subnet,
}

-- A nil dereference is a panic: none.
-- Default; `dhcp_server_interface` is the field of the agent's configuration
unfoldable pub default : Text → Subnet → Option Subnet
default dhcp_server_interface subnet = elim (subnet.spec.feature) [
  | none ↦ none
  | some feature ↦
      let iface = subnet.spec.interface_spec in
      some (record {
        meta =
            set_label label_cluster_name (text_of feature.sync_redfishstatus.default_cluster_name)
              subnet.meta;
        spec = record {
          ipv4_subnet = subnet.spec.ipv4_subnet;
          interface_spec = record {
            interface = if is_empty iface.interface then dhcp_server_interface else iface.interface;
            vlan_id = elim (iface.vlan_id) [ none ↦ some (pos 0) | some v ↦ some v ];
            ipv4 = iface.ipv4;
          };
          feature = subnet.spec.feature;
        };
      })
]

-- The errors of the admission of a Subnet, one for each return.
pub data SubnetError (Addr : Type 0) : Type 0 where
  subnet_modified interface_modified vlan_modified ipv4_modified : SubnetError Addr
  invalid_subnet invalid_gateway invalid_dns : Text → SubnetError Addr
  gateway_outside : Text → SubnetError Addr
  invalid_range : RangeError → SubnetError Addr
  invalid_expansion : ExpansionError → SubnetError Addr
  interface_missing : InterfaceError → SubnetError Addr
  vlan_out_of_bounds : ℤ → SubnetError Addr
  ipv4_mismatch : MatchError → SubnetError Addr
  no_link list_failed : SubnetError Addr
  host_mismatch : HostError Addr → SubnetError Addr
  interface_used vlan_used : Text → SubnetError Addr

-- What the admission asks of its surroundings: net.Interfaces, netlink's LinkByName and AddrList of
-- an interface's name (the two in one answer each), and the client's List.
pub record Host (Addr : Type 0) : Type 0 where
  pub interfaces : Option (List Text)
  pub link_by_name : Text → Bool
  pub addr_list : Text → Option (List Addr)
  pub subnets : Option (List Subnet)

abbrev check_gateway :
    {Addr : Type 0} → Text → IpNet → Option Text → Result (SubnetError Addr) (Unit {0})
check_gateway subnet ip_net none = ok tt
check_gateway subnet ip_net (some gateway) = do
  guard (not (is_nil (parse_ip gateway))) (invalid_gateway gateway)
  guard (validate_ip_in_subnet (parse_ip gateway) ip_net) (gateway_outside gateway)

abbrev check_dns : {Addr : Type 0} → Option Text → Result (SubnetError Addr) (Unit {0})
check_dns none = ok tt
check_dns (some dns) = guard (not (is_nil (parse_ip dns))) (invalid_dns dns)

abbrev check_vlan_id : {Addr : Type 0} → Option ℤ → Result (SubnetError Addr) (Unit {0})
check_vlan_id none = ok tt
check_vlan_id (some v) = guard (in_bounds 4094 v) (vlan_out_of_bounds v)

-- The third branch of the source, with the condition of the second and more, is never reached.
abbrev pub check_same_interface :
    {Addr : Type 0} → Text → Option ℤ → Option ℤ → Result (SubnetError Addr) (Unit {0})
check_same_interface name (some a) (some b) = guard (not (int_eq a b)) (vlan_used name)
check_same_interface name none none = err (interface_used name)
check_same_interface name _ _ = ok tt

-- one round of the loop over the existing subnets
unfoldable pub check_conflict :
    {Addr : Type 0} → InterfaceSpec → Text → Subnet → Result (SubnetError Addr) (Unit {0})
check_conflict iface name existing =
    let other = existing.spec.interface_spec in
    if text_eq existing.meta.name name
    then ok tt
    else if text_eq other.interface iface.interface
    then check_same_interface existing.meta.name other.vlan_id iface.vlan_id
    else ok tt

module _ {Addr : Type 0} (netlink : Netlink Addr) (host : Host Addr) where
  -- validateInterface; the address of a field, it takes no nil
  unfoldable pub validate_interface :
      InterfaceSpec → IpNet → Subnet → Result (SubnetError Addr) (Unit {0})
  validate_interface iface cidr subnet = do
    wrap interface_missing (validate_interface_exists host.interfaces iface.interface)
    check_vlan_id iface.vlan_id
    wrap ipv4_mismatch (validate_ip_with_subnet_match iface.ipv4 cidr)
    guard (host.link_by_name iface.interface) no_link
    wrap host_mismatch
        (validate_host_interface_subnet netlink (host.addr_list iface.interface) iface)
    require host.subnets list_failed >>= for_each (check_conflict iface subnet.meta.name)

  -- validateSubnet
  unfoldable pub validate_subnet : Subnet → Result (SubnetError Addr) (Unit {0})
  unfolding validate_interface
  validate_subnet subnet =
      let v4 = subnet.spec.ipv4_subnet in
      require (parse_cidr v4.subnet) (invalid_subnet v4.subnet) >>= λ p.
      wrap invalid_range (validate_ip_range v4.ip_range p.1)
      >> check_gateway v4.subnet p.1 v4.gateway
      >> check_dns v4.dns
      >> validate_interface subnet.spec.interface_spec p.1 subnet

  -- ValidateCreate
  unfoldable pub validate_create : Subnet → Result (SubnetError Addr) (Unit {0})
  validate_create subnet = validate_subnet subnet

  -- ValidateUpdate
  unfoldable pub validate_update : Subnet → Subnet → Result (SubnetError Addr) (Unit {0})
  validate_update old new =
      let old_v4 = old.spec.ipv4_subnet in
      let new_v4 = new.spec.ipv4_subnet in
      let old_iface = old.spec.interface_spec in
      let new_iface = new.spec.interface_spec in
      guard (text_eq old_v4.subnet new_v4.subnet) subnet_modified
      >> (require (parse_cidr new_v4.subnet) (invalid_subnet new_v4.subnet) >>= λ p.
          wrap invalid_expansion (validate_ip_range_expansion old_v4.ip_range new_v4.ip_range p.1)
          >> guard (text_eq old_iface.interface new_iface.interface) interface_modified
          >> guard (int32_ptr_equal old_iface.vlan_id new_iface.vlan_id) vlan_modified
          >> guard (text_eq old_iface.ipv4 new_iface.ipv4) ipv4_modified
          >> validate_subnet new)

  -- ValidateDelete
  unfoldable pub validate_delete : Subnet → Result (SubnetError Addr) (Unit {0})
  validate_delete subnet = ok tt
