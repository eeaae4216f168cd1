-- ===== src/Endpoint.antt =====
-- pkg/hostendpoint/controller.go: the controller that keeps a RedfishStatus or an SSHStatus for each
-- HostEndpoint. The time of an update is an argument; logging is left out.
pub mod Settle
use topohub.Common.{
  Bool, true, false, not, ◌&&◌, Option, none, some, List, [], ◌∷◌, if◌then◌else◌, Text, codes,
  text_eq, Map, ℤ, int_eq, pos, bool_eq,
}
use topohub.Api.{
  HostEndpoint, HostEndpointSpec, ObjectMeta, BasicInfo, RedfishStatus, text_of, label_ip_addr,
  label_client_mode,
}

abbrev pub endpoint_type_redfish : Text
endpoint_type_redfish = codes "redfish"

abbrev pub endpoint_type_ssh : Text
endpoint_type_ssh = codes "ssh"

abbrev pub host_type_endpoint : Text
host_type_endpoint = codes "hostendpoint"

abbrev pub host_type_ssh : Text
host_type_ssh = codes "ssh"

pub record SshBasicInfo : Type 0 where
  pub cluster_name : Text
  pub type : Text
  pub ip_addr : Text
  pub secret_name : Text
  pub secret_namespace : Text
  pub port : ℤ
  pub ssh_key_auth : Bool
  pub subnet_name : Option Text

-- a nil map of info is none
pub record SshStatusStatus : Type 0 where
  pub healthy : Bool
  pub last_update_time : Text
  pub basic : SshBasicInfo
  pub info : Option (Map Text)

pub record SshStatus : Type 0 where
  pub meta : ObjectMeta
  pub status : SshStatusStatus

-- if p != nil { v = *p }
abbrev pub or_else {ℓ} : {A : Type ℓ} → Option A → A → A
or_else none v = v
or_else (some x) v = x

-- p != nil && v == *p
abbrev is_text : Option Text → Text → Bool
is_text none v = false
is_text (some s) v = text_eq v s

abbrev is_bool : Option Bool → Bool → Bool
is_bool none v = false
is_bool (some b) v = bool_eq v b

abbrev is_int : Option ℤ → ℤ → Bool
is_int none v = false
is_int (some n) v = int_eq v n

-- specEqual
unfoldable pub spec_equal : BasicInfo → HostEndpointSpec → Bool
spec_equal basic spec =
    text_eq basic.ip_addr spec.ip_addr
    && (text_eq (text_of spec.cluster_name) basic.cluster_name
        && (is_text spec.secret_name basic.secret_name
            && (is_text spec.secret_namespace basic.secret_namespace
                && (is_bool spec.https basic.https
                    && (is_int spec.port basic.port
                        && text_eq basic.type (or_else spec.type endpoint_type_redfish))))))

-- the basic info that both branches of handleRedfishEndpoint write, but for the cluster's name
unfoldable pub basic_of : Text → HostEndpointSpec → BasicInfo
basic_of cluster_name spec = record {
  cluster_name = cluster_name;
  type = host_type_endpoint;
  ip_addr = spec.ip_addr;
  secret_name = text_of spec.secret_name;
  secret_namespace = text_of spec.secret_namespace;
  https = or_else spec.https true;
  port = or_else spec.port (pos 443);
  mac = [];
  active_dhcp_client = false;
  dhcp_expire_time = none;
  subnet_name = none;
  hostname = none;
}

-- what Get finds; the requests of the controller, and whether each kind succeeds
pub data Found (A : Type 0) : Type 0 where
  found : A → Found A
  not_found get_failed : Found A

pub data Request : Type 0 where
  update_redfish status_redfish : RedfishStatus → Request
  create_redfish : (name : Text) → (labels : Map Text) → (owner : Text) → Request
  status_ssh : SshStatus → Request
  create_ssh : (name : Text) → (labels : Map Text) → (owner : Text) → Request

pub record Replies : Type 0 where
  pub created : Bool
  pub updated : Bool
  pub status_updated : Bool

pub data Outcome : Type 0 where
  finished failed panicked : Outcome

abbrev outcome_of : Bool → Outcome
outcome_of true = finished
outcome_of false = failed

unfoldable pub updated_redfish : Text → HostEndpoint → RedfishStatus → RedfishStatus
updated_redfish now host_endpoint existing = record existing {
  status = record (existing.status) {
    last_update_time = now;
    basic = basic_of [] host_endpoint.spec;
  };
}

abbrev labels_of : Text → HostEndpoint → Map Text
labels_of mode host_endpoint =
    (label_ip_addr, host_endpoint.spec.ip_addr) ∷ (label_client_mode, mode) ∷ []

unfoldable pub new_redfish : Text → HostEndpoint → RedfishStatus
new_redfish now host_endpoint = record {
  meta = record {
    name = host_endpoint.meta.name;
    labels = some (labels_of host_type_endpoint host_endpoint);
    resource_version = [];
  };
  status = record {
    healthy = false;
    last_update_time = now;
    basic = basic_of (text_of host_endpoint.spec.cluster_name) host_endpoint.spec;
    info = [];
    log = record {
      total_log_account = pos 0;
      warning_log_account = pos 0;
      lastest_log = none;
      lastest_warning_log = none;
    };
  };
}

-- handleRedfishEndpoint
unfoldable pub handle_redfish_endpoint :
    Text → HostEndpoint → Found RedfishStatus → Replies → Outcome × List Request
handle_redfish_endpoint now host_endpoint (found existing) r =
    if spec_equal existing.status.basic host_endpoint.spec
    then (finished, [])
    else (outcome_of r.updated, update_redfish (updated_redfish now host_endpoint existing) ∷ [])
handle_redfish_endpoint now host_endpoint get_failed r = (failed, [])
handle_redfish_endpoint now host_endpoint not_found r =
    let name = host_endpoint.meta.name in
    let create = create_redfish name (labels_of host_type_endpoint host_endpoint) name in
    if r.created
    then (outcome_of r.status_updated, create ∷ status_redfish (new_redfish now host_endpoint) ∷ [])
    else (failed, create ∷ [])

-- p != nil && v != *p
abbrev pub differs_text : Option Text → Text → Bool
differs_text none v = false
differs_text (some s) v = not (text_eq v s)

abbrev differs_int : Option ℤ → ℤ → Bool
differs_int none v = false
differs_int (some n) v = not (int_eq v n)

-- specEqualSSH
unfoldable pub spec_equal_ssh : SshBasicInfo → HostEndpointSpec → Bool
spec_equal_ssh basic spec =
    text_eq basic.ip_addr spec.ip_addr
    && (not (differs_int spec.port basic.port)
        && (not (differs_text spec.secret_name basic.secret_name)
            && (not (differs_text spec.secret_namespace basic.secret_namespace)
                && text_eq basic.cluster_name (text_of spec.cluster_name))))

unfoldable pub updated_ssh : Text → HostEndpointSpec → ℤ → SshStatus → SshStatus
updated_ssh now spec port existing = record existing {
  status = record (existing.status) {
    last_update_time = now;
    basic = record {
      cluster_name = text_of spec.cluster_name;
      type = host_type_ssh;
      ip_addr = spec.ip_addr;
      secret_name = text_of spec.secret_name;
      secret_namespace = text_of spec.secret_namespace;
      port = port;
      ssh_key_auth = false;
      subnet_name = none;
    };
    info = some (or_else existing.status.info []);
  };
}

-- the update of an SSHStatus; it dereferences the port
unfoldable pub update_ssh :
    Text → HostEndpointSpec → Option ℤ → SshStatus → Replies → Outcome × List Request
update_ssh now spec none existing r = (panicked, [])
update_ssh now spec (some port) existing r =
    (outcome_of r.status_updated, status_ssh (updated_ssh now spec port existing) ∷ [])

-- handleSSHEndpoint
unfoldable pub handle_ssh_endpoint :
    Text → HostEndpoint → Found SshStatus → Replies → Outcome × List Request
unfolding update_ssh
handle_ssh_endpoint now host_endpoint (found existing) r =
    if spec_equal_ssh existing.status.basic host_endpoint.spec
    then (finished, [])
    else update_ssh now host_endpoint.spec host_endpoint.spec.port existing r
handle_ssh_endpoint now host_endpoint get_failed r = (failed, [])
handle_ssh_endpoint now host_endpoint not_found r =
    let name = host_endpoint.meta.name in
    (outcome_of r.created, create_ssh name (labels_of host_type_ssh host_endpoint) name ∷ [])

-- handleHostEndpoint; every type but SSH is handled as Redfish
unfoldable pub handle_host_endpoint :
    Text → HostEndpoint → Found RedfishStatus → Found SshStatus → Replies → Outcome × List Request
handle_host_endpoint now host_endpoint redfish ssh r =
    if text_eq (or_else host_endpoint.spec.type endpoint_type_redfish) endpoint_type_ssh
    then handle_ssh_endpoint now host_endpoint ssh r
    else handle_redfish_endpoint now host_endpoint redfish r

-- Reconcile
unfoldable pub reconcile :
    Text
    → Found HostEndpoint
    → (Text → Found RedfishStatus)
    → (Text → Found SshStatus)
    → Replies
    → Outcome × List Request
reconcile now not_found redfish ssh r = (finished, [])
reconcile now get_failed redfish ssh r = (failed, [])
reconcile now (found host_endpoint) redfish ssh r =
    handle_host_endpoint now host_endpoint (redfish host_endpoint.meta.name)
      (ssh host_endpoint.meta.name) r
