-- ===== src/Dhcp/Status.antt =====
-- pkg/subnet/dhcpserver/UpdateSubnet.go: the status that a DHCP server reports of its subnet.
pub mod Amounts
pub mod Details
use topohub.Common.{
  ℕ, ◌+◌, ◌-◌, ◌^◌, Bool, true, false, Option, none, some, [], ◌∷◌, ◌==◌, if◌then◌else◌, is_some,
  Result, length, Text, codes, Map, lookup, insert, ℤ, ok, err,
}
use topohub.Tools.Count.{CountError, u64, count_ips_in_range}
use topohub.Dhcp.Client.{DhcpClientInfo}

pub record ClientInfo : Type 0 where
  pub mac : Text
  pub is_bound : Bool
  pub is_allocated : Bool
  pub hostname : Text
  pub dhcp_expire_time : Text

-- the first loop of updateClientFunc; `format` is Time.Format(time.RFC3339)
unfoldable pub add_bound :
    (Option ℤ → Text) → Map DhcpClientInfo → Map ClientInfo × ℕ → Map ClientInfo × ℕ
add_bound format [] (m, counter) = (m, counter)
add_bound format ((ip, client) ∷ clients) (m, counter) = add_bound format clients (
  insert ip
      (record {
        mac = client.mac;
        is_bound = true;
        is_allocated = false;
        hostname = client.hostname;
        dhcp_expire_time =
            if is_some client.dhcp_expire_time then format client.dhcp_expire_time else [];
      })
      m,
  u64 (counter + 1),
)

-- the entry of a client with a lease, and what it adds to the counter
unfoldable pub leased_entry :
    (Option ℤ → Text) → DhcpClientInfo → Option ClientInfo → ClientInfo × ℕ
leased_entry format client (some existing) = (
  record existing {
    mac = client.mac;
    is_allocated = true;
    hostname = client.hostname;
    dhcp_expire_time = format client.dhcp_expire_time;
  },
  0,
)
leased_entry format client none = (
  record {
    mac = client.mac;
    is_bound = false;
    is_allocated = true;
    hostname = client.hostname;
    dhcp_expire_time = format client.dhcp_expire_time;
  },
  1,
)

-- the second loop
unfoldable pub add_leased :
    (Option ℤ → Text) → Map DhcpClientInfo → Map ClientInfo × ℕ → Map ClientInfo × ℕ
add_leased format [] (m, counter) = (m, counter)
add_leased format ((ip, client) ∷ clients) (m, counter) =
    let (entry, more) = leased_entry format client (lookup ip m) in
    add_leased format clients (insert ip entry m, u64 (counter + more))

unfoldable pub client_map :
    (Option ℤ → Text) → Map DhcpClientInfo → Map DhcpClientInfo → Map ClientInfo × ℕ
client_map format dhcp_client manual_bind_clients =
    add_leased format dhcp_client (add_bound format manual_bind_clients ([], 0))

-- updateClientFunc; `marshal` is json.Marshal
unfoldable pub update_client_func :
    (Option ℤ → Text)
    → (Map ClientInfo → Option Text)
    → Map DhcpClientInfo
    → Map DhcpClientInfo
    → Text × ℕ
unfolding client_map
update_client_func format marshal dhcp_client manual_bind_clients =
    let (m, counter) = client_map format dhcp_client manual_bind_clients in
    if length m == 0
    then (codes "{}", 0)
    else elim (marshal m) [ none ↦ (codes "{}", 0) | some s ↦ (s, counter) ]

pub record DhcpStatusSpec : Type 0 where
  pub dhcp_ip_total_amount : ℕ
  pub dhcp_ip_available_amount : ℕ
  pub dhcp_ip_active_amount : ℕ
  pub dhcp_ip_bind_amount : ℕ

-- the total, 0 where the range is malformed
abbrev pub total_of : Result CountError ℕ → ℕ
total_of (ok n) = n
total_of (err e) = 0

-- the amounts that updateSubnetWithRetry writes into the status, in uint64
unfoldable pub dhcp_status : Text → ℕ → ℕ → ℕ → DhcpStatusSpec
dhcp_status ip_range used_ip_amount leases bindings =
    let total_ips = total_of (count_ips_in_range ip_range) in
    record {
      dhcp_ip_total_amount = total_ips;
      dhcp_ip_available_amount = u64 (total_ips + 2 ^ 64 - used_ip_amount);
      dhcp_ip_active_amount = leases;
      dhcp_ip_bind_amount = bindings;
    }
