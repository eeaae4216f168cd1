-- ===== src/Redfish/Check.antt =====
-- pkg/redfishstatus/redfish_status_reconcile.go with pkg/redfish: a check of a host whose BMC answers.
pub mod HostName
use topohub.Common.{Bool, Option, none, some, List, Result, Text, ok, err}
use topohub.Api.{RedfishStatus}
use topohub.Redfish.Status as Status
use topohub.Redfish.Status.{Updated, Request, update_redfish_status_info}
use topohub.Redfish.Entries as Entries
use topohub.Redfish.Entries.{get_log}
use topohub.Redfish.Inventory.{Service}
use topohub.Redfish.Info.{get_info}

-- what a check meets: whether NewClient connects, what the BMC returns to GetInfo and to GetLog,
-- whether the status is stored, and the time
pub record Surroundings : Type 0 where
  pub connects : Bool
  pub service : Service
  pub logs : Entries.Answers
  pub is_stored : Bool
  pub now : Text

-- a value, or none of an error
abbrev pub to_option {ℓ κ} : {E : Type ℓ} {A : Type κ} → Result E A → Option A
to_option (ok a) = some a
to_option (err e) = none

-- the answers to the calls of the client
unfoldable pub answers_of : Surroundings → Status.Answers
answers_of b = record {
  connects = b.connects;
  info = to_option (get_info b.service);
  log = to_option (get_log b.logs);
  is_stored = b.is_stored;
  now = b.now;
}

-- UpdateRedfishStatusInfo
unfoldable pub check : Surroundings → Option RedfishStatus → Updated × List Request
unfolding answers_of
check b existing = update_redfish_status_info (answers_of b) existing
