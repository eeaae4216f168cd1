-- ===== src/Lib.antt =====
-- Verification of topohub: a Kubernetes operator that runs a DHCP server for each Subnet, binds
-- addresses to MACs for BindingIps, and keeps a status object for each host that is found by DHCP
-- or named by a HostEndpoint.
--
-- The parts and the files that model them:
--   * Common: texts (lists of ASCII codes), Go maps as association lists, `(value, error)` results,
--     the list and number helpers, and their lemmas.
--   * Net: the parts of Go's packages net and strings that the program calls: ParseIP, ParseCIDR,
--     ParseMAC, Contains, Mask, Equal. An address is its list of bytes, nil the empty list.
--   * Api: the resources of pkg/k8s/apis/topohub.infrastructure.io/v1beta1.
--   * Tools: pkg/tools/tools.go. Range has ValidateIPRange, ValidateIPRangeExpansion and
--     IsIPInRange, Count has CountIPsInRange, Mac the MAC and interface names, Host the interface's
--     address.
--   * Webhook: the admission of a Subnet, a BindingIp and a HostEndpoint (pkg/webhook/subnet,
--     bindingip, hostendpoint), and the labels of a RedfishStatus and an SSHStatus (StatusHook). A
--     client's answers are fields of a record; Step and Reachable put admitted requests in
--     sequence.
--   * Binding: pkg/bindingip, the cache and the controller that sends an event for each change.
--   * Dhcp: pkg/subnet/dhcpserver. Bindings has the monitor's rounds, Lease the lease file, Status
--     the reported amounts and clients, Report the attempts to store them, Interface the set-up of
--     the host's interface, Config the configuration file, Start the start of the server; Deliver
--     takes the controller's events to a server as pkg/subnet/manager.go does.
--   * Manager: pkg/subnet/manager.go and data.go, the servers that follow the Subnets.
--   * Endpoint: pkg/hostendpoint/controller.go.
--   * Operation: pkg/hostoperation/controller.go and the admission of host operations.
--   * Logs: GenerateEvents of pkg/redfishstatus/redfish_status_reconcile.go and of
--     pkg/sshstatus/tools.go.
--   * Redfish: pkg/redfishstatus/data/cache.go (Cache), dhcp.go (DhcpEvents), the check of a host
--     with the comparison of statuses (Status) and the reconciler (Controller), which also has
--     pkg/secret/controller.go; and of pkg/redfish the power actions (Power), the clients that are
--     kept (Client), GetLog (Entries) and GetInfo (Info, on the objects of Inventory). Check
--     puts the check and the client together.
--   * Ssh: pkg/sshstatus, the cache (Cache), the check of a host (Status), the client (Client) and the
--     reconciler (Controller), which finds the Subnet of a host in what Dhcp/Status writes.
--   * Lock: pkg/lock/lockByID.go.
--   * Examples: the theorems at concrete inputs.
--
-- State is passed explicitly: a handler takes the state and the answers of its surroundings and
-- returns the new state and the requests or events it sends, in order. A lock that is held for a
-- whole operation makes it one step; the channels are lists of events. Iteration over a Go map,
-- whose order is open, follows the association list. Numbers are natural numbers, with the
-- wrap-around of uint32 and uint64 written out. Texts are ASCII; net.ParseIP has no zones, as in
-- Go. Every loop of the program is over a list, but for the rounds of the retried PXE boot, which
-- are counted up to maxRetries, and the loop of the status worker, which is over the events that it
-- receives. The digits of a number are written by recursion on fuel, as many rounds as the number
-- and one more, which is enough (Net/Format).
--
-- Not modelled: logging, processes, retry.OnError, the tickers of the periodic checks, the
-- configuration and the main program. The webhooks' `object is not a ...` branches do not arise for
-- a typed argument. The text template of dnsmasq's configuration, the netlink package, the gofish
-- and ssh libraries, the Kubernetes client, JSON and time formatting are parameters.
mod Common
pub mod Net
pub mod Api
pub mod Tools
pub mod Webhook
pub mod Binding
pub mod Dhcp
pub mod Endpoint
pub mod Operation
pub mod Redfish
pub mod Manager
pub mod Logs
pub mod Ssh
pub mod Lock
pub mod Examples
