-- ===== src/Dhcp/Start/Serves.antt =====
-- pkg/subnet/dhcpserver: what a server that started has.
use topohub.Common.{◌≡◌, Bool, true, Option, some, Result, ◌>>◌, Text, Map, ok, err}
use topohub.Api.{Subnet, FeatureSpec}
use topohub.Dhcp.Client.{DhcpClientInfo}
use topohub.Dhcp.Bindings.{Manual, final_lines}
use topohub.Dhcp.Lease.{process_dhcp_lease}
use topohub.Tools.Host.{Netlink}
use topohub.Dhcp.Interface.{Links, interface_name}
use topohub.Dhcp.Interface.Addresses.{Laws, Has}
use topohub.Dhcp.Config.{ConfigData, Files, Paths, Written, config_data, lease_subnet}
use topohub.Dhcp.Start.{Started}

-- the configuration file is what the template makes of the Subnet, the bindings file has the bindings,
-- and the leases are those of the lease file
abbrev pub IsWritten : Files → Paths → Subnet → Map DhcpClientInfo → Manual → Written → Type 0
IsWritten files paths subnet leases manual w =
    (feature : FeatureSpec) × (execute : ConfigData → Option Text) × (is_changed : Bool)
    × (subnet.spec.feature ≡ some feature)
    × (files.template ≡ some execute)
    × (w.config ≡ execute (config_data paths subnet feature))
    × (w.binding_lines ≡ some (final_lines manual))
    × (process_dhcp_lease true (lease_subnet subnet feature) files.lease_content leases
        ≡ some (is_changed, w.leases, w.events))

after {ℓ κ} :
    {E : Type ℓ} {A : Type κ} (first : Result E (Unit {0})) (next : Result E A) (a : A)
    → (first >> next) ≡ ok a
    → next ≡ ok a
after (ok u) next a h = h
after (err e) next a h = cc

module _ {S Link Addr : Type 0} (netlink : Netlink Addr) (links : Links S Link Addr)
    (laws : Laws netlink links) where
  abbrev pub Serves : Files → Paths → Subnet → Map DhcpClientInfo → Manual → Started S → Type 0
  Serves files paths subnet leases manual started =
      Has laws (interface_name subnet.spec.interface_spec) subnet.spec.interface_spec.ipv4
        started.host
      × ((w : Written) × (started.written ≡ some w) × IsWritten files paths subnet leases manual w)
      × (started.has_process ≡ true)
      × (started.signals ≡ 1)
