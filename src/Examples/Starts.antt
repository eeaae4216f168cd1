-- ===== src/Examples/Starts.antt =====
-- Runs of the start of a DHCP server, on a host that is a map from its interfaces to their addresses.
use topohub.Common.{
  ◌≡◌, refl, sym, true, false, none, some, List, [], ◌∷◌, ◌++◌, arith, if◌then◌else◌,
  some-injective, is_some, Text, codes, text_eq, text_eq_refl, Map, lookup, insert, lookup-insert,
  ok, pos,
}
use topohub.Net.Prefix.{IpNet, parse_cidr}
use topohub.Api.{InterfaceSpec, Subnet, FeatureSpec}
use topohub.Dhcp.Lease.{not_exist}
use topohub.Tools.Host.{Netlink}
use topohub.Dhcp.Interface as Interface
use topohub.Dhcp.Interface.{Links}
use topohub.Dhcp.Interface.Addresses.{Laws, Keeps, Has, setup_interface-Configures}
use topohub.Dhcp.Config as Config
use topohub.Dhcp.Config.{Files, Paths}
use topohub.Dhcp.Start as Start
use topohub.Dhcp.Start.Serves.{Serves}

abbrev Host : Type 0
Host = Map (List Text)

abbrev no_net : IpNet
no_net = record { ip = []; mask = [] }

abbrev netlink : Netlink Text
netlink = record {
  ip_net = λ a. elim (parse_cidr a) [ none ↦ no_net | some p ↦ record (p.1) { ip = p.0 } ];
  parse_addr = λ s. if is_some (parse_cidr s) then some s else none;
  equal = text_eq;
}

abbrev addrs : Text → Host → List Text
addrs n h = elim (lookup n h) [ none ↦ [] | some as' ↦ as' ]

abbrev links : Links Host Text Text
links = record {
  link_by_name = λ n h. if is_some (lookup n h) then some n else none;
  is_down = λ l. false;
  link_set_up = λ l h. (h, true);
  link_add = λ name parent id h. (insert name [] h, some name);
  addr_list = λ l h. some (addrs l h);
  addr_add = λ l a h. (insert l (a ∷ addrs l h) h, true);
}

found_name :
    (n l : Text) (h : Host) → (if is_some (lookup n h) then some n else none) ≡ some l → l ≡ n
found_name n l h e = ground arith

other_addrs :
    (n name : Text) (v : List Text) (h : Host)
    → text_eq name n ≡ false
    → addrs n (insert name v h) ≡ addrs n h
other_addrs n name v h e = ground (arith, lookup-insert name n v h)

same_addrs : (n : Text) (v : List Text) (h : Host) → addrs n (insert n v h) ≡ v
same_addrs n v h = ground (arith, lookup-insert n n v h, text_eq_refl n)

laws : Laws netlink links
laws = record {
  name_of = λ l. l;
  addrs = addrs;
  named = λ n l h e. found_name n l h e;
  listed = λ l as' h e. sym (some-injective e);
  up_keeps = λ n l h. refl;
  add_keeps = λ n name parent id h e. other_addrs n name [] h e;
  addr_added = λ l a h e. rw (same_addrs l (a ∷ addrs l h) h, text_eq_refl a) refl;
  addr_keeps = λ n l a h e. other_addrs n l (a ∷ addrs l h) h e;
}

abbrev host : Host
host = (codes "eth1", []) ∷ (codes "eth0", codes "10.0.0.2/24" ∷ []) ∷ []

abbrev vlan : InterfaceSpec
vlan = record { interface = codes "eth1"; vlan_id = some (pos 10); ipv4 = codes "192.168.1.2/24" }

setup_interface-Configures_example :
    let (s', result) = Interface.setup_interface netlink links vlan host in
    Keeps laws (Interface.interface_name vlan) host s'
    × (result ≡ ok tt → Has laws (Interface.interface_name vlan) vlan.ipv4 s')
setup_interface-Configures_example = setup_interface-Configures laws vlan host

abbrev feature : FeatureSpec
feature = record {
  sync_redfishstatus = record {
    enabled = true;
    enable_bind_dhcp_ip = true;
    default_cluster_name = none;
  };
  enable_pxe = false;
  enable_ztp = false;
  enable_dhcp_trusted_only = false;
}

abbrev subnet : Subnet
subnet = record {
  meta = record { name = codes "lan"; labels = none; resource_version = [] };
  spec = record {
    ipv4_subnet = record {
      subnet = codes "192.168.1.0/24";
      ip_range = codes "192.168.1.10-192.168.1.19,192.168.1.30";
      gateway = none;
      dns = none;
    };
    interface_spec = vlan;
    feature = some feature;
  };
}

abbrev files : Files
files = record {
  template = some (λ d. some (codes "interface=" ++ d.interface));
  is_template_read = true;
  is_dir_made = true;
  is_old_removed = true;
  is_created = true;
  has_bindings_file = true;
  lease_content = not_exist;
  are_bindings_written = true;
  is_config_read = true;
}

abbrev paths : Paths
paths = record {
  lease_path = codes "lan.leases";
  log_path = codes "lan.log";
  storage_path_tftp = codes "tftp";
  pxe_efi = codes "core.efi";
  host_ip_bindings_config_path = codes "lan-bindIp.conf";
}
