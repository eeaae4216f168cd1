-- ===== src/Dhcp/Interface.antt =====
-- pkg/subnet/dhcpserver/interface.go: the host's interface of a DHCP server. The netlink package is a
-- parameter; the host, whose links and addresses it reads and changes, is a state.
pub mod Addresses
use topohub.Common.{
  Bool, not, Option, none, some, List, ◌++◌, ltb, if◌then◌else◌, Result, guard, wrap, length, any,
  Text, codes, ℤ, in_bounds, is_positive, ok, err,
}
use topohub.Net.Format.{format_int}
use topohub.Api.{InterfaceSpec}
use topohub.Tools.Host as Host
use topohub.Tools.Host.{Netlink, HostError, validate_host_interface_subnet}

-- what the code takes of netlink for links: LinkByName, OperState == OperDown, LinkSetUp, LinkAdd of
-- a VLAN with its name, parent and id, AddrList and AddrAdd, which answer whether they succeed
pub record Links (S Link Addr : Type 0) : Type 0 where
  pub link_by_name : Text → S → Option Link
  pub is_down : Link → Bool
  pub link_set_up : Link → S → S × Bool
  pub link_add : Text → Link → ℤ → S → S × Option Link
  pub addr_list : Link → S → Option (List Addr)
  pub addr_add : Link → Addr → S → S × Bool

pub data SetupError (Addr : Type 0) : Type 0 where
  no_base_interface base_not_up not_found : Text → SetupError Addr
  conflict : HostError Addr → SetupError Addr
  invalid_vlan_id : ℤ → SetupError Addr
  name_too_long not_created not_up : Text → SetupError Addr
  invalid_addr no_addr_list not_added : Text → SetupError Addr

-- fmt.Sprintf("%s.%d", base, vlanID)
unfoldable pub vlan_name : Text → ℤ → Text
vlan_name base id = base ++ (codes "." ++ format_int id)

-- interfaceName
unfoldable pub interface_name : InterfaceSpec → Text
unfolding vlan_name
interface_name iface = elim (iface.vlan_id) [
  | none ↦ iface.interface
  | some id ↦ if is_positive id then vlan_name iface.interface id else iface.interface
]

module _ {S Link Addr : Type 0} (netlink : Netlink Addr) (links : Links S Link Addr) where
  abbrev pub Outcome : Type 0
  Outcome = S × Result (SetupError Addr) (Unit {0})

  -- if err := first; err != nil { return err }
  abbrev pub and_then : (S → Outcome) → Outcome → Outcome
  and_then next (s, err e) = (s, err e)
  and_then next (s, ok u) = next s

  -- LinkSetUp, with the error that is returned where it fails
  unfoldable pub set_up : SetupError Addr → Link → S → Outcome
  set_up failure link s = let (s', done) = links.link_set_up link s in (s', guard done failure)

  -- the VLAN link that LinkAdd makes is set up
  unfoldable pub bring_up : Text → S × Option Link → Outcome
  unfolding set_up
  bring_up name (s, none) = (s, err (not_created name))
  bring_up name (s, some link) = set_up (not_up name) link s

  -- createVlanInterface, with what LinkByName finds
  unfoldable pub create_vlan_interface : Link → Text → ℤ → Option Link → S → Outcome
  unfolding bring_up
  create_vlan_interface parent name id (some link) s = set_up (not_up name) link s
  create_vlan_interface parent name id none s =
      if not (in_bounds 4094 id)
      then (s, err (invalid_vlan_id id))
      else if ltb 15 (length name)
      then (s, err (name_too_long name))
      else bring_up name (links.link_add name parent id s)

  -- AddrAdd, where the address is not on the link yet
  unfoldable pub add_addr : Text → Link → Addr → List Addr → S → Outcome
  add_addr ip link addr addrs s =
      if any (λ existing. netlink.equal existing addr) addrs
      then (s, ok tt)
      else (let (s', done) = links.addr_add link addr s in (s', guard done (not_added ip)))

  -- configureIP from the address list on
  unfoldable pub configure_link : Text → Link → Option Addr → Option (List Addr) → S → Outcome
  unfolding add_addr
  configure_link ip link none listed s = (s, err (invalid_addr ip))
  configure_link ip link (some addr) none s = (s, err (no_addr_list ip))
  configure_link ip link (some addr) (some addrs) s = add_addr ip link addr addrs s

  -- configureIP, with what LinkByName finds
  unfoldable pub configure_ip : Text → Text → Option Link → S → Outcome
  unfolding configure_link
  configure_ip name ip none s = (s, err (not_found name))
  configure_ip name ip (some link) s =
      configure_link ip link (netlink.parse_addr ip) (links.addr_list link s) s

  -- the base interface is up after this, or an error
  unfoldable pub ensure_up : Text → Link → S → Outcome
  unfolding set_up
  ensure_up base parent s =
      if links.is_down parent then set_up (base_not_up base) parent s else (s, ok tt)

  -- tools.ValidateHostInterfaceSubnet
  unfoldable pub check_host : InterfaceSpec → Link → S → Outcome
  check_host iface parent s =
      (s, wrap conflict (validate_host_interface_subnet netlink (links.addr_list parent s) iface))

  -- the VLAN interface, where the Subnet has a VLAN id
  unfoldable pub ensure_vlan : InterfaceSpec → Link → S → Outcome
  unfolding create_vlan_interface vlan_name
  ensure_vlan iface parent s = elim (iface.vlan_id) [
    | none ↦ (s, ok tt)
    | some id ↦
        let name = vlan_name iface.interface id in
        if is_positive id
        then create_vlan_interface parent name id (links.link_by_name name s) s
        else (s, ok tt)
  ]

  -- setupInterface, with what LinkByName finds for the base interface
  unfoldable pub setup_from : InterfaceSpec → Option Link → S → Outcome
  unfolding ensure_up check_host ensure_vlan configure_ip interface_name
  setup_from iface none s = (s, err (no_base_interface iface.interface))
  setup_from iface (some parent) s =
      let name = interface_name iface in
      and_then (λ s. configure_ip name iface.ipv4 (links.link_by_name name s) s)
        (and_then (ensure_vlan iface parent)
          (and_then (check_host iface parent) (ensure_up iface.interface parent s)))

  -- setupInterface
  unfoldable pub setup_interface : InterfaceSpec → S → Outcome
  unfolding setup_from
  setup_interface iface s = setup_from iface (links.link_by_name iface.interface s) s
