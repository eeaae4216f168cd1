-- ===== src/Redfish/DhcpEvents.antt =====
-- pkg/redfishstatus/dhcp.go and tools.go: a RedfishStatus and a BindingIp for each DHCP client that
-- answers as a Redfish host.
pub mod Bind
use topohub.Common.{
  Bool, true, false, not, ◌&&◌, ◌||◌, Option, none, some, List, [], ◌∷◌, ◌++◌, if◌then◌else◌,
  get_or, any, Text, codes, text_eq, split, replace_all, equal_fold, ℤ, pos,
}
use topohub.Api.{
  BindingIp, ObjectMeta, RedfishStatus, set_label, group_name, label_ip_addr, label_client_mode,
  label_client_active, label_cluster_name, label_subnet_name,
}
use topohub.Dhcp.Client.{DhcpClientInfo}

abbrev pub label_redfish_status : Text
label_redfish_status = group_name ++ codes "/redfishstatus"

abbrev pub host_type_dhcp : Text
host_type_dhcp = codes "dhcp"

-- formatRedfishStatusName
unfoldable pub format_redfish_status_name : Text → Text
format_redfish_status_name ip = replace_all b'.' b'-' ip

-- the configuration of the agent, the format of times and the time now
pub record Setting : Type 0 where
  pub redfish_port : ℤ
  pub redfish_https : Bool
  pub redfish_secret_name : Text
  pub redfish_secret_namespace : Text
  pub format : Option ℤ → Text
  pub now : Text

-- what Get finds
pub data Found : Type 0 where
  found : RedfishStatus → Found
  not_found get_failed : Found

-- the answers that an event gets: whether the secret is read and the host connects, the list of the
-- BindingIps, and whether each kind of request succeeds
pub record Answers : Type 0 where
  pub existing : Found
  pub has_secret : Bool
  pub connects : Bool
  pub is_created : Bool
  pub is_status_updated : Bool
  pub is_updated : Bool
  pub binding_ips : Option (List BindingIp)
  pub is_binding_created : Bool

pub data Request : Type 0 where
  create_status : ObjectMeta → Request
  update_status update_object : RedfishStatus → Request
  create_binding : BindingIp → Request

-- the BindingIp of a client
unfoldable pub binding_of : DhcpClientInfo → BindingIp
binding_of client = record {
  meta = record {
    name = format_redfish_status_name client.ip;
    labels = some ((label_redfish_status, format_redfish_status_name client.ip) ∷ []);
    resource_version = [];
  };
  spec = record { subnet = client.subnet_name; ip_addr = client.ip; mac_addr = client.mac };
  valid = false;
}

-- the loop over the existing BindingIps: whether one of them stands in the way. The three tests of
-- the source all return.
unfoldable pub stands_in_way : BindingIp → BindingIp → Bool
stands_in_way binding existing =
    (text_eq existing.spec.ip_addr binding.spec.ip_addr
      && equal_fold existing.spec.mac_addr binding.spec.mac_addr)
    || text_eq existing.meta.name binding.meta.name
    || text_eq existing.spec.ip_addr binding.spec.ip_addr

abbrev pub is_enabled : Option Bool → Bool
is_enabled none = false
is_enabled (some b) = b

-- createBindingIpForredfishstatus: whether to retry, and the requests
unfoldable pub create_binding_ip : Answers → DhcpClientInfo → Bool × List Request
unfolding stands_in_way
create_binding_ip a client =
    let binding = binding_of client in
    if not (is_enabled client.enable_bind_ip) then (false, []) else elim (a.binding_ips) [
      | none ↦ (true, [])
      | some existing ↦
          if any (stands_in_way binding) existing
          then (false, [])
          else (not a.is_binding_created, create_binding binding ∷ [])
    ]

abbrev text_is : Option Text → Text → Bool
text_is none s = false
text_is (some t) s = text_eq t s

-- the status of an existing object with the client's MAC and expiry
unfoldable pub refreshed : Setting → DhcpClientInfo → RedfishStatus → RedfishStatus
refreshed set client existing = record existing {
  status = record (existing.status) {
    basic = record (existing.status.basic) {
      mac = client.mac;
      dhcp_expire_time = some (set.format client.dhcp_expire_time);
    };
    last_update_time = set.now;
  };
}

-- whether that differs
unfoldable pub is_stale : Setting → DhcpClientInfo → RedfishStatus → Bool
is_stale set client existing =
    not (text_eq existing.status.basic.mac client.mac)
    || not (text_is existing.status.basic.dhcp_expire_time (set.format client.dhcp_expire_time))

-- the object that is created for a client, with its status
unfoldable pub new_status : Setting → DhcpClientInfo → RedfishStatus
new_status set client = record {
  meta = set_label label_client_active (codes "true") (
      set_label label_client_mode host_type_dhcp (
        set_label label_ip_addr (get_or (split b'/' client.ip) 0 []) (
          set_label label_cluster_name client.cluster_name (record {
            name = format_redfish_status_name client.ip;
            labels = some ((label_subnet_name, client.subnet_name) ∷ []);
            resource_version = [];
          }))));
  status = record {
    healthy = false;
    last_update_time = set.now;
    basic = record {
      cluster_name = client.cluster_name;
      type = host_type_dhcp;
      ip_addr = client.ip;
      secret_name = set.redfish_secret_name;
      secret_namespace = set.redfish_secret_namespace;
      https = set.redfish_https;
      port = set.redfish_port;
      mac = client.mac;
      active_dhcp_client = true;
      dhcp_expire_time = some (set.format client.dhcp_expire_time);
      subnet_name = some client.subnet_name;
      hostname = some client.hostname;
    };
    info = [];
    log = record {
      total_log_account = pos 0;
      warning_log_account = pos 0;
      lastest_log = none;
      lastest_warning_log = none;
    };
  };
}

-- the BindingIp is created last; a retry is an error
abbrev with_binding : Answers → DhcpClientInfo → List Request → Bool × List Request
with_binding a client requests =
    let (retry, more) = create_binding_ip a client in (not retry, requests ++ more)

-- the existing object: its status is stored if it is stale
unfoldable pub add_existing :
    Setting → Answers → DhcpClientInfo → RedfishStatus → Bool × List Request
unfolding create_binding_ip
add_existing set a client existing =
    if not (is_stale set client existing)
    then with_binding a client []
    else if not a.is_status_updated
    then (false, update_status (refreshed set client existing) ∷ [])
    else with_binding a client (update_status (refreshed set client existing) ∷ [])

-- a new object: its status is stored in a second request
unfoldable pub add_new : Setting → Answers → DhcpClientInfo → Bool × List Request
unfolding create_binding_ip
add_new set a client =
    let name_only : ObjectMeta = record {
      name = format_redfish_status_name client.ip;
      labels = some ((label_subnet_name, client.subnet_name) ∷ []);
      resource_version = [];
    } in
    let create = create_status name_only in
    let update = update_status (new_status set client) in
    if not a.has_secret
    then (false, [])
    else if not a.connects
    then (true, [])
    else if not a.is_created
    then (false, create ∷ [])
    else if not a.is_status_updated
    then (false, create ∷ update ∷ [])
    else with_binding a client (create ∷ update ∷ [])

-- handleDHCPAdd: whether it returns no error, and its requests
unfoldable pub handle_dhcp_add : Setting → Answers → DhcpClientInfo → Bool × List Request
unfolding add_existing add_new
handle_dhcp_add set a client = elim (a.existing) [
  | found existing ↦ add_existing set a client existing
  | get_failed ↦ (false, [])
  | not_found ↦ add_new set a client
]

unfoldable pub deactivated : RedfishStatus → RedfishStatus
deactivated existing = record existing {
  meta = set_label label_client_active (codes "false") existing.meta;
  status = record (existing.status) {
    basic = record (existing.status.basic) { active_dhcp_client = false };
  };
}

-- handleDHCPDelete
unfoldable pub handle_dhcp_delete : Answers → DhcpClientInfo → Bool × List Request
handle_dhcp_delete a client = elim (a.existing) [
  | found existing ↦ (a.is_updated, update_object (deactivated existing) ∷ [])
  | get_failed ↦ (false, [])
  | not_found ↦ (true, [])
]
