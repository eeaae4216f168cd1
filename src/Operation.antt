-- ===== src/Operation.antt =====
-- pkg/hostoperation/controller.go and pkg/webhook/hostoperation/hostoperation_webhook.go: an
-- operation on a host, pending until it is done or has failed. The log and the texts of errors are
-- left out; the message of a failure is an argument.
pub mod Once
use topohub.Common.{
  Bool, true, false, not, ◌||◌, Option, none, some, List, [], ◌∷◌, ◌++◌, if◌then◌else◌, Result,
  ◌>>=◌, guard, require, any, Text, codes, text_eq, is_empty, err,
}
use topohub.Api.{ObjectMeta, RedfishStatus}

abbrev pub host_operation_status_pending : Text
host_operation_status_pending = codes "pending"

abbrev pub host_operation_status_success : Text
host_operation_status_success = codes "success"

abbrev pub host_operation_status_failed : Text
host_operation_status_failed = codes "failure"

pub record HostOperationSpec : Type 0 where
  pub action : Text
  pub redfish_status_name : Text

pub record HostOperationStatus : Type 0 where
  pub status : Text
  pub message : Text
  pub last_update_time : Text
  pub cluster_name : Text
  pub ip_addr : Text

pub record HostOperation : Type 0 where
  pub meta : ObjectMeta
  pub spec : HostOperationSpec
  pub status : HostOperationStatus

-- the actions of the switch
abbrev pub actions : List Text
actions =
    codes "On"
    ∷ codes "ForceOn"
    ∷ codes "ForceOff"
    ∷ codes "GracefulShutdown"
    ∷ codes "ForceRestart"
    ∷ codes "GracefulRestart"
    ∷ codes "PxeReboot"
    ∷ []

-- what the host does with an action: the client connects or not, Power returns or fails with a
-- message
pub data HostReply : Type 0 where
  no_connection power_failed : (message : Text) → HostReply
  powered : HostReply

-- The answers that one reconciliation gets: Get of the RedfishStatus, whether the cache of the
-- connections knows the host, the host's reply, and whether the status is stored.
pub record Answers : Type 0 where
  pub redfish_status : Option RedfishStatus
  pub is_cached : Bool
  pub reply : HostReply
  pub is_stored : Bool
  pub now : Text

pub data Request : Type 0 where
  power : Text → Request
  update_status : HostOperation → Request

pub data Outcome : Type 0 where
  finished requeue_soon failed : Outcome

-- hostOp.Status.Status == "" || hostOp.Status.Status == Pending
unfoldable pub is_open : HostOperation → Bool
is_open op = is_empty op.status.status || text_eq op.status.status host_operation_status_pending

-- whether the action went well, and the requests of it
unfoldable pub operate : Text → HostReply → Option Text × List Request
operate action (no_connection message) = (some message, [])
operate action (power_failed message) =
    if any (text_eq action) actions
    then (some message, power action ∷ [])
    else (some (codes "invalid action " ++ action), [])
operate action powered =
    if any (text_eq action) actions
    then (none, power action ∷ [])
    else (some (codes "invalid action " ++ action), [])

-- the status after the action
unfoldable pub closed_status : Answers → RedfishStatus → Option Text → Text → HostOperationStatus
closed_status a redfish none message = record {
  status = host_operation_status_success;
  message = message;
  last_update_time = a.now;
  cluster_name = redfish.status.basic.cluster_name;
  ip_addr = redfish.status.basic.ip_addr;
}
closed_status a redfish (some failure) message = record {
  status = host_operation_status_failed;
  message = failure;
  last_update_time = a.now;
  cluster_name = redfish.status.basic.cluster_name;
  ip_addr = redfish.status.basic.ip_addr;
}

unfoldable pub closed : Answers → RedfishStatus → HostOperation → HostOperation
unfolding operate closed_status
closed a redfish op = record op {
  status = closed_status a redfish (operate op.spec.action a.reply).0 op.status.message;
}

abbrev stored : Bool → Outcome
stored true = finished
stored false = failed

-- Reconcile of an existing HostOperation
unfoldable pub reconcile_found :
    Answers → Option RedfishStatus → HostOperation → Outcome × List Request
unfolding closed operate is_open
reconcile_found a none op = (failed, [])
reconcile_found a (some redfish) op =
    if not (is_open op) then (finished, []) else if not a.is_cached then (requeue_soon, []) else (
      stored a.is_stored,
      (operate op.spec.action a.reply).1 ++ (update_status (closed a redfish op) ∷ []),
    )

-- what Get finds
pub data Found : Type 0 where
  found : HostOperation → Found
  not_found get_failed : Found

-- Reconcile
unfoldable pub reconcile : Answers → Found → Outcome × List Request
reconcile a not_found = (finished, [])
reconcile a get_failed = (failed, [])
reconcile a (found op) = reconcile_found a a.redfish_status op

-- The errors of the admission.
pub data OperationError : Type 0 where
  no_redfish_status not_healthy updates_not_allowed : OperationError

-- ValidateCreate; `redfish_status` is what the client's Get finds
unfoldable pub validate_create :
    Option RedfishStatus → HostOperation → Result OperationError (Unit {0})
validate_create redfish_status op =
    require redfish_status no_redfish_status >>= λ r. guard r.status.healthy not_healthy

-- ValidateUpdate
unfoldable pub validate_update : HostOperation → HostOperation → Result OperationError (Unit {0})
validate_update old new = err updates_not_allowed
