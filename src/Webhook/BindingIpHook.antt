-- ===== src/Webhook/BindingIpHook.antt =====
-- pkg/webhook/bindingip/webhook.go: defaults and admission of a BindingIp.
pub mod Unique
use topohub.Common.{
  not, Option, List, if◌then◌else◌, Result, ◌>>=◌, ◌>>◌, guard, require, for_each, Text, text_eq,
  equal_fold, ok,
}
use topohub.Api.{BindingIp, Subnet, set_label, label_subnet_name}
use topohub.Net.Ip.{is_nil}
use topohub.Net.Parse.{parse_ip}
use topohub.Tools.Range.{is_ip_in_range}
use topohub.Tools.Mac.{is_valid_unicast_mac}

-- Default
unfoldable pub default : BindingIp → BindingIp
default binding_ip = record {
  meta = set_label label_subnet_name binding_ip.spec.subnet binding_ip.meta;
  spec = binding_ip.spec;
  valid = binding_ip.valid;
}

-- The errors of validateBindingIP, one for each return.
pub data BindingIpError : Type 0 where
  invalid_mac no_subnet invalid_ip not_in_range : Text → BindingIpError
  list_failed : BindingIpError
  ip_used mac_used : Text → BindingIpError

-- The client: Get of a Subnet and List of the BindingIps.
pub record Client : Type 0 where
  pub get_subnet : Text → Option Subnet
  pub binding_ips : Option (List BindingIp)

-- one round of the loop over the existing BindingIps
unfoldable pub check_used : BindingIp → BindingIp → Result BindingIpError (Unit {0})
check_used binding_ip existing =
    if text_eq existing.meta.name binding_ip.meta.name
    then ok tt
    else guard (not (text_eq existing.spec.ip_addr binding_ip.spec.ip_addr))
        (ip_used existing.meta.name)
      >> guard (not (equal_fold existing.spec.mac_addr binding_ip.spec.mac_addr))
          (mac_used existing.meta.name)

-- validateBindingIP
unfoldable pub validate_binding_ip : Client → BindingIp → Result BindingIpError (Unit {0})
validate_binding_ip client binding_ip =
    let spec = binding_ip.spec in
    guard (is_valid_unicast_mac spec.mac_addr) (invalid_mac spec.mac_addr)
    >> (require (client.get_subnet spec.subnet) (no_subnet spec.subnet) >>= λ subnet.
        guard (not (is_nil (parse_ip spec.ip_addr))) (invalid_ip spec.ip_addr)
        >> guard (is_ip_in_range (parse_ip spec.ip_addr) subnet.spec.ipv4_subnet.ip_range)
            (not_in_range spec.ip_addr)
        >> (require client.binding_ips list_failed >>= for_each (check_used binding_ip)))

-- ValidateCreate
unfoldable pub validate_create : Client → BindingIp → Result BindingIpError (Unit {0})
validate_create client binding_ip = validate_binding_ip client binding_ip

-- ValidateUpdate
unfoldable pub validate_update : Client → BindingIp → BindingIp → Result BindingIpError (Unit {0})
validate_update client old binding_ip = validate_binding_ip client binding_ip
