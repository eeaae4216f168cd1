-- ===== src/Api.antt =====
-- pkg/k8s/apis/topohub.infrastructure.io/v1beta1: the resources that the components share.
use topohub.Common.{Bool, not, Option, none, some, [], ◌++◌, Text, codes, is_empty, Map, insert, ℤ}

-- The fields of metav1.ObjectMeta that the program reads or writes; a nil map of labels is none.
pub record ObjectMeta : Type 0 where
  pub name : Text
  pub labels : Option (Map Text)
  pub resource_version : Text

-- if Labels == nil { Labels = make(map[string]string) }; Labels[k] = v
abbrev pub set_label : Text → Text → ObjectMeta → ObjectMeta
set_label k v m = record m {
  labels = some (insert k v (elim (m.labels) [ none ↦ [] | some l ↦ l ]));
}

-- *p, or "" for a nil pointer
abbrev pub text_of : Option Text → Text
text_of none = []
text_of (some s) = s

-- p != nil && *p != ""
abbrev pub is_set : Option Text → Bool
is_set s = not (is_empty (text_of s))

abbrev pub group_name : Text
group_name = codes "topohub.infrastructure.io"

abbrev pub label_ip_addr : Text
label_ip_addr = group_name ++ codes "/ipAddr"

abbrev pub label_client_mode : Text
label_client_mode = group_name ++ codes "/mode"

abbrev pub label_client_active : Text
label_client_active = group_name ++ codes "/dhcp-ip-active"

abbrev pub label_cluster_name : Text
label_cluster_name = group_name ++ codes "/cluster-name"

abbrev pub label_subnet_name : Text
label_subnet_name = group_name ++ codes "/subnet-name"

pub record IPv4SubnetSpec : Type 0 where
  pub subnet : Text
  pub ip_range : Text
  pub gateway : Option Text
  pub dns : Option Text

pub record InterfaceSpec : Type 0 where
  pub interface : Text
  pub vlan_id : Option ℤ
  pub ipv4 : Text

pub record SyncRedfishstatusSpec : Type 0 where
  pub enabled : Bool
  pub enable_bind_dhcp_ip : Bool
  pub default_cluster_name : Option Text

pub record FeatureSpec : Type 0 where
  pub sync_redfishstatus : SyncRedfishstatusSpec
  pub enable_pxe : Bool
  pub enable_ztp : Bool
  pub enable_dhcp_trusted_only : Bool

pub record SubnetSpec : Type 0 where
  pub ipv4_subnet : IPv4SubnetSpec
  pub interface_spec : InterfaceSpec
  pub feature : Option FeatureSpec

pub record Subnet : Type 0 where
  pub meta : ObjectMeta
  pub spec : SubnetSpec

pub record BindingIpSpec : Type 0 where
  pub subnet : Text
  pub ip_addr : Text
  pub mac_addr : Text

pub record BindingIp : Type 0 where
  pub meta : ObjectMeta
  pub spec : BindingIpSpec
  pub valid : Bool

pub record HostEndpointSpec : Type 0 where
  pub cluster_name : Option Text
  pub ip_addr : Text
  pub secret_name : Option Text
  pub secret_namespace : Option Text
  pub https : Option Bool
  pub port : Option ℤ
  pub type : Option Text

pub record HostEndpoint : Type 0 where
  pub meta : ObjectMeta
  pub spec : HostEndpointSpec

pub record BasicInfo : Type 0 where
  pub cluster_name : Text
  pub type : Text
  pub ip_addr : Text
  pub secret_name : Text
  pub secret_namespace : Text
  pub https : Bool
  pub port : ℤ
  pub mac : Text
  pub active_dhcp_client : Bool
  pub dhcp_expire_time : Option Text
  pub subnet_name : Option Text
  pub hostname : Option Text

pub record LogEntry : Type 0 where
  pub time : Text
  pub message : Text

pub record LogStruct : Type 0 where
  pub total_log_account : ℤ
  pub warning_log_account : ℤ
  pub lastest_log : Option LogEntry
  pub lastest_warning_log : Option LogEntry

pub record RedfishStatusStatus : Type 0 where
  pub healthy : Bool
  pub last_update_time : Text
  pub basic : BasicInfo
  pub info : Map Text
  pub log : LogStruct

pub record RedfishStatus : Type 0 where
  pub meta : ObjectMeta
  pub status : RedfishStatusStatus
