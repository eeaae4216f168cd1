-- ===== src/Dhcp/Bindings.antt =====
-- pkg/subnet/dhcpserver/dnsmasq.go and config.go: the bound addresses of a DHCP server, the file
-- that dnsmasq reads them from, and the rounds of the monitor.
pub mod Bound
use topohub.Common.{
  Bool, true, false, not, Option, none, some, List, [], ◌∷◌, ◌++◌, ltb, if◌then◌else◌, length, Text,
  codes, text_eq, equal_fold, Map, lookup, insert, delete,
}
use topohub.Binding.Cache.{BindingIpInfo}
use topohub.Dhcp.Client.{DhcpClientInfo}

-- currentManualBindingClients, by address
abbrev pub Manual : Type 0
Manual = Map DhcpClientInfo

-- the client that an event of a BindingIp makes
unfoldable pub client_of : BindingIpInfo → DhcpClientInfo
client_of info = record {
  mac = info.mac_addr;
  ip = info.ip_addr;
  hostname = info.hostname;
  active = false;
  dhcp_expire_time = none;
  subnet = [];
  subnet_name = [];
  cluster_name = [];
  enable_bind_ip = none;
}

-- `case info := <-s.addedBindingIp`: none if the round goes on with the next event
unfoldable pub on_added : BindingIpInfo → Manual → Option Manual
on_added info manual = elim (lookup info.ip_addr manual) [
  | some item ↦
      if not (text_eq item.mac info.mac_addr)
      then some (insert info.ip_addr (client_of info) manual)
      else none
  | none ↦ some (insert info.ip_addr (client_of info) manual)
]

-- `case info := <-s.deletedBindingIp`
unfoldable pub on_deleted : BindingIpInfo → Manual → Option Manual
on_deleted info manual = elim (lookup info.ip_addr manual) [
  | some item ↦
      if equal_fold item.mac info.mac_addr then some (delete info.ip_addr manual) else none
  | none ↦ none
]

-- the lines of one client
unfoldable pub binding_lines : Text → DhcpClientInfo → List Text
binding_lines ip item =
    let line = item.mac ++ codes ",id:*,set:trusted," ++ ip in
    if ltb 0 (length item.hostname)
    then (codes "# hostname " ++ item.hostname) ∷ line ∷ []
    else line ∷ []

-- the lines that UpdateDhcpBindings writes
unfoldable pub final_lines : Manual → List Text
final_lines [] = []
final_lines ((ip, item) ∷ manual) = binding_lines ip item ++ final_lines manual

-- what the monitor's round does outside the program's memory
pub data Action : Type 0 where
  write_bindings : List Text → Action
  generate_config signal_hup start_dnsmasq notify_status process_lease : Action

-- the answers to the actions of one round: whether each succeeds
pub record Answers : Type 0 where
  pub written : Bool
  pub generated : Bool
  pub signalled : Bool
  pub lease_read : Bool

-- the events of the monitor's select; the last has the check of the process's life
pub data MonitorEvent : Type 0 where
  watch_error : MonitorEvent
  lease_file : (is_write : Bool) → MonitorEvent
  added_binding deleted_binding : BindingIpInfo → MonitorEvent
  restart : MonitorEvent
  tick : (is_alive : Bool) → MonitorEvent

-- UpdateDhcpBindings, then the reload that a change of the bindings asks for
unfoldable pub write_and_reload : Answers → Option Manual → Manual → Manual × List Action
write_and_reload a none manual = (manual, [])
write_and_reload a (some m) manual = (
  m,
  write_bindings (final_lines m)
      ∷ (if a.written then signal_hup ∷ (if a.signalled then notify_status ∷ [] else []) else []),
)

-- one round of monitor
unfoldable pub monitor_round : Answers → MonitorEvent → Manual → Manual × List Action
unfolding write_and_reload on_added on_deleted
monitor_round a watch_error manual = (manual, [])
monitor_round a (lease_file is_write) manual = (
  manual,
  if is_write then process_lease ∷ (if a.lease_read then notify_status ∷ [] else []) else [],
)
monitor_round a (added_binding info) manual = write_and_reload a (on_added info manual) manual
monitor_round a (deleted_binding info) manual = write_and_reload a (on_deleted info manual) manual
monitor_round a restart manual = (
  manual,
  generate_config
      ∷ (if a.generated then signal_hup ∷ (if a.signalled then notify_status ∷ [] else []) else []),
)
monitor_round a (tick true) manual = (manual, [])
monitor_round a (tick false) manual =
    (manual, generate_config ∷ (if a.generated then start_dnsmasq ∷ [] else []))
