-- ===== src/Examples/Leases.antt =====
-- Runs of the lease file and of the amounts of the status.
use topohub.Common.{
  ◌≡◌, refl, Bool, true, Option, none, some, [], ◌∷◌, length, any, Text, codes, text_eq, split, Map,
  lookup, ℤ, pos, is_distinct,
}
use topohub.Dhcp.Client.{DhcpClientInfo}
use topohub.Dhcp.Lease.{
  LeaseSubnet, lease_client, lease_clients, process_content, fields, parse_line, parse_int,
}
use topohub.Dhcp.Lease.Follow.{
  last_with, announces, process_content-current, process_content-announces,
}
use topohub.Dhcp.Status.{client_map}
use topohub.Dhcp.Status.Amounts.{client_map_counts}
use topohub.Tools.Count.{u64}

abbrev subnet_of : Bool → LeaseSubnet
subnet_of enabled = record {
  subnet = codes "192.168.1.0/24";
  name = codes "first";
  sync = record { enabled = enabled; enable_bind_dhcp_ip = true; default_cluster_name = none };
}

abbrev file : Text
file = codes "1700000000 00:11:22:33:44:aa 192.168.1.12 printer *"

-- leases of the server before the file is read
abbrev scanner : DhcpClientInfo
scanner = record {
  mac = codes "00:11:22:33:44:bb";
  ip = codes "192.168.1.13";
  hostname = codes "scanner";
  active = true;
  dhcp_expire_time = some (pos 1600000000);
  subnet = codes "192.168.1.0/24";
  subnet_name = codes "first";
  cluster_name = [];
  enable_bind_ip = some true;
}

abbrev previous : Map DhcpClientInfo
previous = (codes "192.168.1.13", scanner) ∷ []

scanner_gone :
    last_with (codes "192.168.1.13") (lease_clients (subnet_of true) (split 10 file)) none ≡ none
unfolding last_with lease_clients split fields parse_line parse_int text_eq lease_client
scanner_gone = refl

scanner_known : lookup (codes "192.168.1.13") previous ≡ some scanner
unfolding lookup text_eq
scanner_known = refl

process_content-current_example :
    lookup (codes "192.168.1.12") (process_content (subnet_of true) file previous).1
    ≡ last_with (codes "192.168.1.12") (lease_clients (subnet_of true) (split 10 file)) none
process_content-current_example =
    process_content-current (subnet_of true) file (codes "192.168.1.12") previous

process_content-announces_example :
    any (announces scanner) (process_content (subnet_of true) file previous).2 ≡ true
process_content-announces_example =
    process_content-announces (subnet_of true) file (codes "192.168.1.13") previous scanner refl
      scanner_known scanner_gone

abbrev format : Option ℤ → Text
format t = codes "2024-01-01T00:00:00Z"

previous_distinct : is_distinct previous ≡ true
unfolding lookup
previous_distinct = refl

client_map_counts_example :
    (client_map format previous previous).1 ≡ u64 (length (client_map format previous previous).0)
client_map_counts_example = client_map_counts format previous previous previous_distinct

abbrev range : Text
range = codes "192.168.1.10-192.168.1.20"
