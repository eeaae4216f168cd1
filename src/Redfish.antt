-- ===== src/Redfish.antt =====
-- pkg/redfishstatus: the connections of the hosts, and the events of the DHCP clients.
pub mod Cache
pub mod DhcpEvents
pub mod Status
pub mod Controller
pub mod Power
pub mod Client
pub mod Entries
pub mod Inventory
pub mod Info
pub mod Check
