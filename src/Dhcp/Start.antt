-- ===== src/Dhcp/Start.antt =====
-- pkg/subnet/dhcpserver/dnsmasq.go: the start of the dnsmasq process.
pub mod Serves
use topohub.Common.{ℕ, Bool, false, Option, none, some, if◌then◌else◌, Result, guard, Map, ok, err}
use topohub.Api.{Subnet}
use topohub.Dhcp.Client.{DhcpClientInfo}
use topohub.Dhcp.Bindings.{Manual}
use topohub.Tools.Host.{Netlink}
use topohub.Dhcp.Interface.{Links, SetupError, setup_interface}
use topohub.Dhcp.Config.{Files, Paths, ConfigError, Written, generate_dnsmasq_config}

pub data StartError (Addr : Type 0) : Type 0 where
  interface_failed : SetupError Addr → StartError Addr
  config_failed : ConfigError → StartError Addr
  not_started : StartError Addr

-- what startDnsmasq leaves: the host, what the configuration wrote, whether a process was started as
-- `cmd`, and the signals that the status is to be updated
pub record Started (S : Type 0) : Type 0 where
  pub host : S
  pub written : Option Written
  pub has_process : Bool
  pub signals : ℕ

module _ {S Link Addr : Type 0} (netlink : Netlink Addr) (links : Links S Link Addr) where
  -- startDnsmasq from cmd.Start on; the Process of a command that started is set
  unfoldable pub start_configured :
      Bool
      → S
      → Written × Result ConfigError (Unit {0})
      → Started S × Result (StartError Addr) (Unit {0})
  start_configured starts host (w, err e) = (
    record { host = host; written = some w; has_process = false; signals = 0 },
    err (config_failed e),
  )
  start_configured starts host (w, ok u) = (
    record {
      host = host;
      written = some w;
      has_process = starts;
      signals = if starts then 1 else 0;
    },
    guard starts not_started,
  )

  -- startDnsmasq from the set-up of the interface on
  unfoldable pub start_from :
      Bool
      → Written × Result ConfigError (Unit {0})
      → S × Result (SetupError Addr) (Unit {0})
      → Started S × Result (StartError Addr) (Unit {0})
  unfolding start_configured
  start_from starts config (host, err e) = (
    record { host = host; written = none; has_process = false; signals = 0 },
    err (interface_failed e),
  )
  start_from starts config (host, ok u) = start_configured starts host config

  -- startDnsmasq; `starts` is whether cmd.Start succeeds
  unfoldable pub start_dnsmasq :
      Files
      → Paths
      → Bool
      → Subnet
      → Map DhcpClientInfo
      → Manual
      → S
      → Started S × Result (StartError Addr) (Unit {0})
  unfolding start_from
  start_dnsmasq files paths starts subnet leases manual host =
      start_from starts (generate_dnsmasq_config files paths subnet leases manual)
        (setup_interface netlink links subnet.spec.interface_spec host)
