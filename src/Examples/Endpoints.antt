-- ===== src/Examples/Endpoints.antt =====
-- Runs of the controller of the HostEndpoints.
use topohub.Common.{true, none, some, [], Text, codes, pos}
use topohub.Api.{HostEndpoint, RedfishStatus}
use topohub.Endpoint.{Replies, basic_of}

abbrev endpoint_of : Text → HostEndpoint
endpoint_of type = record {
  meta = record { name = codes "server"; labels = none; resource_version = [] };
  spec = record {
    cluster_name = none;
    ip_addr = codes "192.168.1.40";
    secret_name = some (codes "login");
    secret_namespace = some (codes "topohub");
    https = some true;
    port = some (pos 443);
    type = some type;
  };
}

abbrev redfish : HostEndpoint
redfish = endpoint_of (codes "redfish")

abbrev status : RedfishStatus
status = record {
  meta = record { name = codes "server"; labels = none; resource_version = [] };
  status = record {
    healthy = true;
    last_update_time = [];
    basic = basic_of [] redfish.spec;
    info = [];
    log = record {
      total_log_account = pos 0;
      warning_log_account = pos 0;
      lastest_log = none;
      lastest_warning_log = none;
    };
  };
}

abbrev replies : Replies
replies = record { created = true; updated = true; status_updated = true }
