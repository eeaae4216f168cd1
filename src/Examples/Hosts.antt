-- ===== src/Examples/Hosts.antt =====
-- Runs of host operations, of the hosts' connections, of the events of DHCP clients and of the
-- manager of the subnets.
use topohub.Common.{
  ◌≤◌, ◌≡◌, refl, Bool, true, false, not, ◌&&◌, none, some, [], ◌∷◌, if◌then◌else◌, any, Text,
  codes, Map, lookup, pos,
}
use topohub.Api.{ObjectMeta, RedfishStatus, BasicInfo, Subnet}
use topohub.Dhcp.Client.{DhcpClientInfo}
use topohub.Operation as Operation
use topohub.Operation.Once.{total_powers, total_powers_once}
use topohub.Redfish.DhcpEvents as DhcpEvents
use topohub.Redfish.DhcpEvents.Bind.{is_taken, create_binding_ip-requests}
use topohub.Manager as Manager
use topohub.Manager.Served.{IsServed, reconcile-IsServed}

abbrev meta : Text → ObjectMeta
meta name = record { name = name; labels = none; resource_version = [] }

abbrev basic : BasicInfo
basic = record {
  cluster_name = [];
  type = codes "dhcp";
  ip_addr = codes "192.168.1.12";
  secret_name = codes "login";
  secret_namespace = codes "topohub";
  https = true;
  port = pos 443;
  mac = codes "00:11:22:33:44:aa";
  active_dhcp_client = true;
  dhcp_expire_time = none;
  subnet_name = none;
  hostname = none;
}

abbrev host : RedfishStatus
host = record {
  meta = meta (codes "192-168-1-12");
  status = record {
    healthy = true;
    last_update_time = [];
    basic = basic;
    info = [];
    log = record {
      total_log_account = pos 0;
      warning_log_account = pos 0;
      lastest_log = none;
      lastest_warning_log = none;
    };
  };
}

abbrev restart : Operation.HostOperation
restart = record {
  meta = meta (codes "restart");
  spec = record { action = codes "ForceRestart"; redfish_status_name = codes "192-168-1-12" };
  status = record {
    status = [];
    message = [];
    last_update_time = [];
    cluster_name = [];
    ip_addr = [];
  };
}

abbrev answers_of : Bool → Operation.Answers
answers_of is_stored = record {
  redfish_status = some host;
  is_cached = true;
  reply = Operation.powered;
  is_stored = is_stored;
  now = codes "now";
}

total_powers_once_example : total_powers (answers_of true ∷ answers_of true ∷ []) restart ≤ 1
total_powers_once_example = total_powers_once (answers_of true ∷ answers_of true ∷ []) restart refl

abbrev client : DhcpClientInfo
client = record {
  mac = codes "00:11:22:33:44:aa";
  ip = codes "192.168.1.12";
  hostname = codes "server";
  active = true;
  dhcp_expire_time = some (pos 1700000000);
  subnet = codes "192.168.1.0/24";
  subnet_name = codes "first";
  cluster_name = [];
  enable_bind_ip = some true;
}

abbrev replies_of : RedfishStatus → DhcpEvents.Answers
replies_of existing = record {
  existing = DhcpEvents.found existing;
  has_secret = true;
  connects = true;
  is_created = true;
  is_status_updated = true;
  is_updated = true;
  binding_ips = some [];
  is_binding_created = true;
}

create_binding_ip-requests_example : DhcpEvents.create_binding_ip (replies_of host) client ≡ (
    if DhcpEvents.is_enabled client.enable_bind_ip && not (any (is_taken client) [])
    then (
      not (replies_of host).is_binding_created,
      DhcpEvents.create_binding (DhcpEvents.binding_of client) ∷ [],
    )
    else (false, []))
create_binding_ip-requests_example = create_binding_ip-requests (replies_of host) client [] refl

abbrev subnet : Subnet
subnet = record {
  meta = meta (codes "first");
  spec = record {
    ipv4_subnet = record {
      subnet = codes "192.168.1.0/24";
      ip_range = codes "192.168.1.10-192.168.1.20";
      gateway = none;
      dns = none;
    };
    interface_spec = record {
      interface = codes "eth0";
      vlan_id = some (pos 7);
      ipv4 = codes "192.168.1.2/24";
    };
    feature = none;
  };
}

abbrev manager : Manager.SubnetManager
manager = record { cache = []; servers = [] }

manager-IsServed : IsServed manager
unfolding IsServed lookup
manager-IsServed name s e = cc

reconcile-IsServed_example :
    IsServed (Manager.reconcile true true [] (codes "first") (Manager.found subnet) manager).0
reconcile-IsServed_example =
    reconcile-IsServed true true [] (codes "first") (Manager.found subnet) manager manager-IsServed

abbrev servers : Map Subnet
servers = (codes "first", subnet) ∷ []
