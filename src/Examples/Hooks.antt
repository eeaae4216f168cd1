-- ===== src/Examples/Hooks.antt =====
-- Runs of pkg/webhook on concrete objects.
use topohub.Common.{
  ◌≡◌, refl, true, false, not, ◌&&◌, Option, none, some, List, [], ◌∷◌, if◌then◌else◌, is_ok,
  length, any, Text, codes, text_eq, contains, split, trim_space, replace_all, equal_fold, ℤ, pos,
}
use topohub.Api.{Subnet, ObjectMeta, BindingIp, HostEndpoint}
use topohub.Net.Prefix.{
  IpNet, parse_cidr, cut_slash, parse_decimal, cidr_mask, mask_ip, contains_ip, short, fit_mask,
  same_network, and_bytes,
}
use topohub.Tools.Host.{
  Netlink, validate_ip_with_subnet_match, validate_host_interface_subnet, check_host_addrs,
}
use topohub.Webhook.SubnetHook as SubnetHook
use topohub.Webhook.BindingIpHook as BindingIpHook
use topohub.Webhook.EndpointHook as EndpointHook
use topohub.Webhook.BindingIpHook.Unique as Unique
use topohub.Webhook.BindingIpHook.Unique.{
  in_subnet, collides, all_unique, validate_binding_ip-accepts, Reachable-unique,
}
use topohub.Webhook.SubnetHook.Update.{IsSameNetwork, validate_update-keeps}
use topohub.Webhook.SubnetHook.Apart.{all_apart, put, empty, after, create, Reachable-apart}
use topohub.Tools.Mac.{validate_interface_exists, is_valid_unicast_mac, int32_ptr_equal}
use topohub.Net.Ip.{Ip, compare_bytes, ip_equal, to4}
use topohub.Tools.Range.{
  is_ip_in_range, in_range, in_ends, is_single, compare_ip, validate_ip_range, check_range,
  check_ends, check_single, validate_ip_in_subnet, validate_ip_range_expansion, check_covered,
  covers, span,
}
use topohub.Net.Mac.{parse_mac, colon_bytes}
use topohub.Net.Parse.{parse_ip, hex_value}

abbrev meta : Text → ObjectMeta
meta name = record { name = name; labels = none; resource_version = [] }

abbrev subnet_of : Text → ℤ → Text → Subnet
subnet_of name vlan range = record {
  meta = meta name;
  spec = record {
    ipv4_subnet = record {
      subnet = codes "192.168.1.0/24";
      ip_range = range;
      gateway = some (codes "192.168.1.1");
      dns = none;
    };
    interface_spec = record {
      interface = codes "eth0";
      vlan_id = some vlan;
      ipv4 = codes "192.168.1.2/24";
    };
    feature = none;
  };
}

abbrev first : Subnet
first = subnet_of (codes "first") (pos 7) (codes "192.168.1.10-192.168.1.20")

abbrev first_wider : Subnet
first_wider = subnet_of (codes "first") (pos 7) (codes "192.168.1.5-192.168.1.20")

abbrev netlink : Netlink IpNet
netlink = record {
  ip_net = λ a. a;
  parse_addr = λ s. some (record { ip = 192 ∷ 168 ∷ 1 ∷ 2 ∷ []; mask = 255 ∷ 255 ∷ 255 ∷ 0 ∷ [] });
  equal = λ a b. text_eq a.ip b.ip && text_eq a.mask b.mask;
}

abbrev host_of : List Subnet → SubnetHook.Host IpNet
host_of subnets = record {
  interfaces = some (codes "lo" ∷ codes "eth0" ∷ []);
  link_by_name = λ name. true;
  addr_list = λ name. some [];
  subnets = some subnets;
}

first_ok : is_ok (SubnetHook.validate_create netlink (host_of []) first) ≡ true
unfolding SubnetHook.validate_create SubnetHook.validate_subnet SubnetHook.validate_interface
    SubnetHook.check_conflict validate_interface_exists validate_ip_with_subnet_match
    validate_host_interface_subnet check_host_addrs parse_cidr cut_slash parse_decimal cidr_mask
    mask_ip ip_equal validate_ip_range check_range check_ends check_single parse_ip trim_space split
    contains contains_ip short to4 fit_mask same_network and_bytes text_eq compare_bytes
    validate_ip_in_subnet
first_ok = refl

wider_ok :
    is_ok (SubnetHook.validate_update netlink (host_of (first ∷ [])) first first_wider) ≡ true
unfolding SubnetHook.validate_update SubnetHook.validate_subnet SubnetHook.validate_interface
    SubnetHook.check_conflict validate_interface_exists validate_ip_with_subnet_match
    validate_host_interface_subnet check_host_addrs parse_cidr cut_slash parse_decimal cidr_mask
    mask_ip ip_equal validate_ip_range check_range check_ends check_single parse_ip trim_space split
    contains contains_ip short to4 fit_mask same_network and_bytes text_eq compare_bytes
    validate_ip_in_subnet validate_ip_range_expansion check_covered covers span compare_ip
    int32_ptr_equal
wider_ok = refl

validate_update-keeps_example :
    IsSameNetwork first first_wider
    × (is_ok (SubnetHook.validate_subnet netlink (host_of (first ∷ [])) first_wider) ≡ true)
    × ((ip : Ip)
        → length ip ≡ 16
        → is_ip_in_range ip first.spec.ipv4_subnet.ip_range ≡ true
        → is_ip_in_range ip first_wider.spec.ipv4_subnet.ip_range ≡ true)
validate_update-keeps_example =
    validate_update-keeps netlink (host_of (first ∷ [])) first first_wider wider_ok

Reachable-apart_example : all_apart (put first []) ≡ true
Reachable-apart_example =
    Reachable-apart netlink (put first []) (after empty (create (host_of []) first refl first_ok))

abbrev binding_of : Text → Text → Text → BindingIp
binding_of name ip mac = record {
  meta = meta name;
  spec = record { subnet = codes "first"; ip_addr = ip; mac_addr = mac };
  valid = false;
}

abbrev printer : BindingIp
printer = binding_of (codes "printer") (codes "192.168.1.12") (codes "00:11:22:33:44:aa")

abbrev scanner : BindingIp
scanner = binding_of (codes "scanner") (codes "192.168.1.13") (codes "00:11:22:33:44:bb")

abbrev get_subnet : Text → Option Subnet
get_subnet name = if text_eq name (codes "first") then some first else none

abbrev client_of : List BindingIp → BindingIpHook.Client
client_of bindings = record { get_subnet = get_subnet; binding_ips = some bindings }

printer_ok : is_ok (BindingIpHook.validate_create (client_of []) printer) ≡ true
unfolding BindingIpHook.validate_create BindingIpHook.validate_binding_ip BindingIpHook.check_used
    is_valid_unicast_mac replace_all contains parse_mac colon_bytes hex_value is_ip_in_range
    in_range in_ends is_single parse_ip trim_space split text_eq compare_bytes compare_ip equal_fold
printer_ok = refl

validate_binding_ip-accepts_example :
    is_ok (BindingIpHook.validate_binding_ip (client_of (printer ∷ [])) scanner) ≡ (
      is_valid_unicast_mac scanner.spec.mac_addr
      && (in_subnet (get_subnet scanner.spec.subnet) scanner.spec.ip_addr
          && not (any (collides scanner) (printer ∷ []))))
validate_binding_ip-accepts_example = validate_binding_ip-accepts get_subnet (printer ∷ []) scanner

Reachable-unique_example : all_unique (Unique.put printer []) ≡ true
Reachable-unique_example =
    Reachable-unique (Unique.put printer [])
      (Unique.after Unique.empty (Unique.create (client_of []) printer refl printer_ok))

abbrev endpoint : HostEndpoint
endpoint = record {
  meta = meta (codes "server");
  spec = record {
    cluster_name = some (codes "blue");
    ip_addr = codes "192.168.1.40";
    secret_name = none;
    secret_namespace = none;
    https = none;
    port = none;
    type = none;
  };
}

abbrev get_secret : Text → Text → Option (List Text)
get_secret name namespace = some (codes "username" ∷ codes "password" ∷ [])
