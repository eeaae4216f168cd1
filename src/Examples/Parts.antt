-- ===== src/Examples/Parts.antt =====
-- Runs of GetInfo, of GetLog and of a check on what a BMC answers.
use topohub.Common.{
  ◌≡◌, refl, true, none, some, List, [], ◌∷◌, ◌++◌, ◌==◌, if◌then◌else◌, Result, length, all, codes,
  ok, pos, err, false,
}
use topohub.Logs.{BmcLog}
use topohub.Redfish.Entries as Entries
use topohub.Redfish.Entries.Enabled.{is_readable, all_entries, manager_entries, get_log-entries}
use topohub.Redfish.Inventory as Inventory
use topohub.Redfish.Info as Info
use topohub.Redfish.Check as Check
use topohub.Redfish.Check.HostName.{Has, check-Has}
use topohub.Redfish.Status.Repeats.{held}
use topohub.Api.{RedfishStatus}

abbrev entry : BmcLog
entry = record {
  created = codes "t1";
  severity = codes "OK";
  oem_sensor_type = [];
  message = codes "on";
}

abbrev system_logs : List Entries.LogService
system_logs =
    record { state = codes "Disabled"; entries = none }
    ∷ record { state = codes "Enabled"; entries = some (entry ∷ []) }
    ∷ []

abbrev logs : Entries.Answers
logs = record { systems = some (some system_logs ∷ []); managers = none }

get_log-entries_example : Entries.get_log logs ≡ (
    if all is_readable system_logs
    then ok (
        if length system_logs == 0
        then []
        else all_entries system_logs ++ manager_entries logs.managers)
    else err Entries.entries_unread)
get_log-entries_example = get_log-entries logs system_logs [] refl

abbrev well : Inventory.Status
well = record { health = codes "OK"; state = codes "Enabled" }

abbrev card : Inventory.PcieDevice
card = record {
  name = codes "nic";
  manufacturer = [];
  model = [];
  description = codes "NIC device";
  firmware_version = [];
  pcie_type = [];
  max_pcie_type = [];
  lanes_in_use = pos 8;
  max_lanes = pos 16;
  status = well;
  functions = some (
      record {
        ethernet_interfaces = some (
            record {
              mac_address = codes "00:11:22:33:44:55";
              speed_gbps = codes "25.00";
              status = well;
            }
            ∷ []);
        storage_controllers = none;
      }
      ∷ []);
}

abbrev system : Inventory.System
system = record {
  bios_version = [];
  host_name = codes "server";
  manufacturer = [];
  power_state = codes "On";
  status = well;
  supported_reset_types = codes "On" ∷ [];
  reset_action_info = none;
  processor_summary = record {
    count = pos 2;
    logical_processor_count = pos 64;
    model = [];
    status = well;
  };
  processors = some [];
  memory_summary = record { total_system_memory_gib = codes "256"; status = well };
  memory = some [];
  storage = some [];
}

abbrev service : Inventory.Service
service = record {
  redfish_version = codes "1.6.0";
  vendor = [];
  managers = some (record { firmware_version = codes "3.1"; status = well } ∷ []);
  systems = some (system ∷ []);
  is_chassis_read = true;
  chassis = some [] ∷ some (card ∷ []) ∷ [];
}

abbrev info_or_none : Result Info.InfoError Info.Info → Info.Info
info_or_none (ok info) = info
info_or_none (err e) = []

succeeds : Info.get_info service ≡ ok (info_or_none (Info.get_info service))
unfolding Info.get_info
succeeds = refl

abbrev surroundings : Check.Surroundings
surroundings = record {
  connects = true;
  service = service;
  logs = logs;
  is_stored = true;
  now = codes "later";
}

abbrev status : RedfishStatus
status = record {
  meta = record { name = codes "192-168-1-12"; labels = none; resource_version = [] };
  status = record {
    healthy = false;
    last_update_time = codes "now";
    basic = record {
      cluster_name = [];
      type = codes "hostendpoint";
      ip_addr = codes "192.168.1.12";
      secret_name = codes "login";
      secret_namespace = codes "topohub";
      https = true;
      port = pos 443;
      mac = [];
      active_dhcp_client = false;
      dhcp_expire_time = none;
      subnet_name = none;
      hostname = none;
    };
    info = [];
    log = record {
      total_log_account = pos 0;
      warning_log_account = pos 0;
      lastest_log = none;
      lastest_warning_log = none;
    };
  };
}

check-Has_example :
    let (u, rs) = Check.check surroundings (some status) in Has (codes "server") (held u rs status)
check-Has_example =
    check-Has surroundings status system [] (info_or_none (Info.get_info service)) refl refl refl
      succeeds
