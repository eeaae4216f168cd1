-- ===== src/Webhook/SubnetHook/Update.antt =====
-- pkg/webhook/subnet/webhook.go: what an accepted update of a Subnet leaves as it was.
use topohub.Common.{◌≡◌, inl, inr, true, arith, Option-cases, is_ok, length, text_eq, text_eq_iff}
use topohub.Api.{Subnet}
use topohub.Net.Ip.{Ip}
use topohub.Net.Prefix.{IpNet, parse_cidr}
use topohub.Tools.Range.{validate_ip_range_expansion, is_ip_in_range}
use topohub.Tools.Range.Expansion.{validate_ip_range_expansion-keeps}
use topohub.Tools.Mac.{int32_ptr_equal, int32_ptr_equal_iff}
use topohub.Tools.Host.{Netlink}
use topohub.Webhook.SubnetHook.{Host, validate_subnet, validate_update}

-- what an update may not change
pub record IsSameNetwork (old new : Subnet) : Type 0 where
  pub subnet : old.spec.ipv4_subnet.subnet ≡ new.spec.ipv4_subnet.subnet
  pub interface : old.spec.interface_spec.interface ≡ new.spec.interface_spec.interface
  pub vlan_id : old.spec.interface_spec.vlan_id ≡ new.spec.interface_spec.vlan_id
  pub ipv4 : old.spec.interface_spec.ipv4 ≡ new.spec.interface_spec.ipv4

module _ {Addr : Type 0} (netlink : Netlink Addr) (host : Host Addr) (old new : Subnet) where
  accepted_parts :
      is_ok (validate_update netlink host old new) ≡ true
      → (text_eq old.spec.ipv4_subnet.subnet new.spec.ipv4_subnet.subnet ≡ true)
        × (text_eq old.spec.interface_spec.interface new.spec.interface_spec.interface ≡ true)
        × (int32_ptr_equal old.spec.interface_spec.vlan_id new.spec.interface_spec.vlan_id ≡ true)
        × (text_eq old.spec.interface_spec.ipv4 new.spec.interface_spec.ipv4 ≡ true)
        × (net : IpNet) × (is_ok (
              validate_ip_range_expansion old.spec.ipv4_subnet.ip_range
                new.spec.ipv4_subnet.ip_range net)
            ≡ true)
        × (is_ok (validate_subnet netlink host new) ≡ true)
  unfolding validate_update
  accepted_parts h = elim (Option-cases (parse_cidr new.spec.ipv4_subnet.subnet)) [
    | inl z ↦ ground arith
    | inr ((ip, net), z) ↦
        (ground arith, ground arith, ground arith, ground arith, net, ground arith, ground arith)
  ]

  -- An update that ValidateUpdate accepts leaves the subnet, the interface, its VLAN id and its
  -- address as they were, the new object passes validateSubnet, and every address of 16 bytes that
  -- IsIPInRange finds in the old range it finds in the new one too.
  pub validate_update-keeps :
      is_ok (validate_update netlink host old new) ≡ true
      → IsSameNetwork old new
        × (is_ok (validate_subnet netlink host new) ≡ true)
        × ((ip : Ip)
            → length ip ≡ 16
            → is_ip_in_range ip old.spec.ipv4_subnet.ip_range ≡ true
            → is_ip_in_range ip new.spec.ipv4_subnet.ip_range ≡ true)
  validate_update-keeps h =
      let (s, i, v, a, net, e, w) = accepted_parts h in
      (
        record {
          subnet = (text_eq_iff old.spec.ipv4_subnet.subnet new.spec.ipv4_subnet.subnet).0 s;
          interface =
              (text_eq_iff old.spec.interface_spec.interface new.spec.interface_spec.interface).0 i;
          vlan_id =
              (int32_ptr_equal_iff old.spec.interface_spec.vlan_id
                  new.spec.interface_spec.vlan_id).0
                v;
          ipv4 = (text_eq_iff old.spec.interface_spec.ipv4 new.spec.interface_spec.ipv4).0 a;
        },
        w,
        λ ip l m.
            validate_ip_range_expansion-keeps old.spec.ipv4_subnet.ip_range
              new.spec.ipv4_subnet.ip_range net ip e l m,
      )
