-- ===== src/Examples/Checks.antt =====
-- Runs of the checks of a BMC: its log, its status, its connection and its power.
use topohub.Common.{
  ℕ, zero, suc, ◌<◌, ◌≡◌, refl, ◌↔◌, true, false, not, ◌&&◌, none, some, List, [], ◌∷◌, map, ◌==◌,
  length, any, all, Text, codes, text_eq, Map, lookup, is_distinct, pos,
}
use topohub.Api.{BasicInfo, RedfishStatus}
use topohub.Logs.{BmcLog, bmc_line, generate_events}
use topohub.Logs.Counts.{report, generate_events-bmc}
use topohub.Redfish.Cache as Cache
use topohub.Redfish.Status as Status
use topohub.Redfish.Status.Repeats.{repeated, times, news, repeated-news}
use topohub.Redfish.Controller as Controller
use topohub.Redfish.Controller.Agree.{State}
use topohub.Redfish.Client as Client
use topohub.Redfish.Power as Power
use topohub.Redfish.Power.Retry.{Succeeds, pxe_reboot_with_retry-Succeeds}
use topohub.Redfish.Power.Requests.{obeys, power_resets}

abbrev entries : List BmcLog
entries =
    record {
      created = codes "t2";
      severity = codes "Warning";
      oem_sensor_type = [];
      message = codes "fan";
    }
    ∷ record {
      created = codes "t1";
      severity = codes "OK";
      oem_sensor_type = [];
      message = codes "on";
    }
    ∷ []

generate_events-bmc_example :
    generate_events (codes "t1") (map bmc_line entries) ≡ report (codes "t1") (map bmc_line entries)
generate_events-bmc_example = generate_events-bmc (codes "t1") entries

abbrev name : Text
name = codes "192-168-1-12"

abbrev basic : BasicInfo
basic = record {
  cluster_name = [];
  type = codes "hostendpoint";
  ip_addr = codes "192.168.1.12";
  secret_name = codes "login";
  secret_namespace = codes "topohub";
  https = true;
  port = pos 443;
  mac = [];
  active_dhcp_client = false;
  dhcp_expire_time = none;
  subnet_name = none;
  hostname = none;
}

abbrev with_info : Map Text → RedfishStatus
with_info info = record {
  meta = record { name = name; labels = none; resource_version = [] };
  status = record {
    healthy = true;
    last_update_time = codes "now";
    basic = basic;
    info = info;
    log = record {
      total_log_account = pos 1;
      warning_log_account = pos 0;
      lastest_log = some (record { time = codes "t1"; message = codes "on" });
      lastest_warning_log = none;
    };
  };
}

abbrev info : Map Text
info = (codes "HostName", codes "server") ∷ []

abbrev as_before : Status.Answers
as_before = record {
  connects = true;
  info = some info;
  log = some entries;
  is_stored = true;
  now = codes "later";
}

info_distinct : is_distinct info ≡ true
unfolding lookup
info_distinct = refl

repeated-news_example :
    repeated 3 as_before (with_info info) ≡ times 3 (news (with_info info) entries)
repeated-news_example =
    repeated-news 3 as_before (with_info info) entries (refl, refl, refl, info_distinct) refl

abbrev world : Controller.World
world = record { ask = λ n d. as_before; find = λ n. some (with_info []) }

abbrev secrets : Controller.Secrets
secrets namespace n = some ((codes "username", codes "root") ∷ (codes "password", codes "new") ∷ [])

abbrev started : State
started = record { secrets = secrets; dirty = λ namespace n. false; cache = [] }

abbrev reconciled : State
reconciled = record started {
  cache = (Controller.reconcile secrets world name (Controller.found (with_info [])) []).0;
}

abbrev connection : Cache.RedfishConnectCon
connection = record {
  info = basic;
  username = codes "root";
  password = codes "new";
  dhcp_host = false;
}

abbrev replies : Client.Answers
replies = record { is_alive = true; connects = true }

abbrev kept : Client.CacheClient
kept =
    (
      codes "192.168.1.12",
      record {
        endpoint = codes "https://192.168.1.12:443";
        username = codes "root";
        password = codes "old";
      },
    )
    ∷ []

-- the first round fails, the second one succeeds
abbrev attempt : ℕ → Power.Attempt
attempt zero = record { systems = none; is_boot_set = false; is_reset = false }
attempt (suc i) = record { systems = some (codes "1" ∷ []); is_boot_set = true; is_reset = true }

pxe_reboot_with_retry-Succeeds_example :
    ((Power.pxe_reboot_with_retry (codes "ForceRestart") (codes "1") attempt).0 ≡ none)
    ↔ ((k : ℕ) × (k < Power.max_retries) × Succeeds (codes "1") attempt 0 k)
pxe_reboot_with_retry-Succeeds_example =
    pxe_reboot_with_retry-Succeeds (codes "ForceRestart") (codes "1") attempt

abbrev systems : List Power.System
systems =
    record {
      id = codes "1";
      has_boot_options = true;
      supported = codes "On" ∷ codes "ForceRestart" ∷ [];
      info = none;
      is_reset = true;
      attempt = attempt;
    }
    ∷ []

on_known : any (text_eq (codes "On")) Power.reset_cmds ≡ true
unfolding text_eq
on_known = refl

power_resets_example :
    (((Power.power (codes "On") (some systems)).0 ≡ none)
      ↔ ((not (length systems == 0) && all obeys systems) ≡ true))
    × ((Power.power (codes "On") (some systems)).0 ≡ none
        → (Power.power (codes "On") (some systems)).1
          ≡ map (λ (s : Power.System). Power.reset s.id (codes "On")) systems)
power_resets_example = power_resets (codes "On") systems on_known
