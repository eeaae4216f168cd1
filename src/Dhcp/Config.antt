-- ===== src/Dhcp/Config.antt =====
-- pkg/subnet/dhcpserver/config.go: the file that dnsmasq is configured by. Its template and what the
-- file system answers are arguments.
pub mod Ranges
use topohub.Common.{
  Bool, true, Option, none, some, List, [], map, if◌then◌else◌, Result, ◌>>=◌, ◌>>◌, guard, require,
  get_or, Text, split, replace_all, Map, ok, err,
}
use topohub.Api.{Subnet, FeatureSpec}
use topohub.Dhcp.Client.{DhcpClientInfo}
use topohub.Dhcp.Bindings.{Manual, final_lines}
use topohub.Dhcp.Lease.{LeaseSubnet, LeaseEvent, FileContent, process_dhcp_lease}
use topohub.Dhcp.Interface.{interface_name}

-- the data that the template is executed with
pub record ConfigData : Type 0 where
  pub interface : Text
  pub ip_ranges : List Text
  pub gateway : Option Text
  pub dns : Option Text
  pub lease_file : Text
  pub log_file : Text
  pub enable_pxe : Bool
  pub enable_ztp : Bool
  pub enable_dhcp_trusted_only : Bool
  pub name : Text
  pub self_ip : Text
  pub tftp_server_dir : Text
  pub pxe_efi_in_tftp_server_dir : Text
  pub host_ip_bindings_config_path : Text

-- the server's paths that the data has
pub record Paths : Type 0 where
  pub lease_path : Text
  pub log_path : Text
  pub storage_path_tftp : Text
  pub pxe_efi : Text
  pub host_ip_bindings_config_path : Text

-- the parts of the range, with a comma for the hyphen
unfoldable pub ip_ranges : Text → List Text
ip_ranges range = map (replace_all b'-' b',') (split b',' range)

unfoldable pub config_data : Paths → Subnet → FeatureSpec → ConfigData
unfolding ip_ranges interface_name
config_data paths subnet feature =
    let ipv4 = subnet.spec.ipv4_subnet in
    let iface = subnet.spec.interface_spec in
    record {
      interface = interface_name iface;
      ip_ranges = ip_ranges ipv4.ip_range;
      gateway = ipv4.gateway;
      dns = ipv4.dns;
      lease_file = paths.lease_path;
      log_file = paths.log_path;
      enable_pxe = feature.enable_pxe;
      enable_ztp = feature.enable_ztp;
      enable_dhcp_trusted_only = feature.enable_dhcp_trusted_only;
      name = subnet.meta.name;
      self_ip = get_or (split b'/' iface.ipv4) 0 [];
      tftp_server_dir = paths.storage_path_tftp;
      pxe_efi_in_tftp_server_dir = paths.pxe_efi;
      host_ip_bindings_config_path = paths.host_ip_bindings_config_path;
    }

-- What the file system and the template answer. `template` is what ParseFiles makes, which writes a
-- text for the data where it can be executed and written; the bindings file exists, is made, or its
-- making panics.
pub record Files : Type 0 where
  pub template : Option (ConfigData → Option Text)
  pub is_template_read : Bool
  pub is_dir_made : Bool
  pub is_old_removed : Bool
  pub is_created : Bool
  pub has_bindings_file : Bool
  pub lease_content : FileContent
  pub are_bindings_written : Bool
  pub is_config_read : Bool

-- the errors, and the panics of a Subnet without feature and of a bindings file that cannot be made
pub data ConfigError : Type 0 where
  bad_template template_unread no_dir nil_feature not_removed not_created : ConfigError
  not_written no_bindings_file lease_unread bindings_unwritten config_unread : ConfigError

-- the text of the configuration file and the lines of the bindings file, where this call wrote them,
-- the clients of the leases after it and the events that reading them sent
pub record Written : Type 0 where
  pub config : Option Text
  pub binding_lines : Option (List Text)
  pub leases : Map DhcpClientInfo
  pub events : List LeaseEvent

-- the parts of the Subnet that processDhcpLease reads
unfoldable pub lease_subnet : Subnet → FeatureSpec → LeaseSubnet
lease_subnet subnet feature = record {
  subnet = subnet.spec.ipv4_subnet.subnet;
  name = subnet.meta.name;
  sync = feature.sync_redfishstatus;
}

-- the configuration file: up to the execution of the template
unfoldable pub write_config : Files → Paths → Subnet → Result ConfigError (FeatureSpec × Text)
unfolding config_data
write_config files paths subnet = require files.template bad_template >>= λ execute.
    guard files.is_template_read template_unread
    >> guard files.is_dir_made no_dir
    >> (require subnet.spec.feature nil_feature >>= λ feature.
        guard files.is_old_removed not_removed
        >> guard files.is_created not_created
        >> (require (execute (config_data paths subnet feature)) not_written >>= λ text.
            ok (feature, text)))

-- generateDnsmasqConfig from the update of the bindings on
unfoldable pub update_bindings :
    Files
    → Text
    → Manual
    → Option (Bool × Map DhcpClientInfo × List LeaseEvent)
    → Map DhcpClientInfo
    → Written × Result ConfigError (Unit {0})
update_bindings files text manual none leases = (
  record { config = some text; binding_lines = none; leases = leases; events = [] },
  err lease_unread,
)
update_bindings files text manual (some (is_changed, current, events)) leases = (
  record {
    config = some text;
    binding_lines = if files.are_bindings_written then some (final_lines manual) else none;
    leases = current;
    events = events;
  },
  guard files.are_bindings_written bindings_unwritten >> guard files.is_config_read config_unread,
)

-- generateDnsmasqConfig from the bindings file on
unfoldable pub read_leases :
    Files
    → Subnet
    → Map DhcpClientInfo
    → Manual
    → Result ConfigError (FeatureSpec × Text)
    → Written × Result ConfigError (Unit {0})
unfolding update_bindings lease_subnet
read_leases files subnet leases manual (err e) =
    (record { config = none; binding_lines = none; leases = leases; events = [] }, err e)
read_leases files subnet leases manual (ok (feature, text)) =
    let read = process_dhcp_lease true (lease_subnet subnet feature) files.lease_content leases in
    if files.has_bindings_file then update_bindings files text manual read leases else (
      record { config = some text; binding_lines = none; leases = leases; events = [] },
      err no_bindings_file,
    )

-- generateDnsmasqConfig, given the clients of the leases and the bindings that the server has
unfoldable pub generate_dnsmasq_config :
    Files → Paths → Subnet → Map DhcpClientInfo → Manual → Written × Result ConfigError (Unit {0})
unfolding write_config read_leases
generate_dnsmasq_config files paths subnet leases manual =
    read_leases files subnet leases manual (write_config files paths subnet)
