-- ===== src/Dhcp/Client.antt =====
-- pkg/subnet/dhcpserver/types.go: the clients of a DHCP server.
use topohub.Common.{Bool, Option, Text, ℤ}

-- The expiry is a number of seconds since 1970; none is Go's zero time.
pub record DhcpClientInfo : Type 0 where
  pub mac : Text
  pub ip : Text
  pub hostname : Text
  pub active : Bool
  pub dhcp_expire_time : Option ℤ
  pub subnet : Text
  pub subnet_name : Text
  pub cluster_name : Text
  pub enable_bind_ip : Option Bool
