-- ===== src/Webhook/EndpointHook.antt =====
-- pkg/webhook/hostendpoint/webhook.go: defaults and admission of a HostEndpoint.
pub mod Admitted
use topohub.Common.{
  Bool, true, false, not, ◌&&◌, ◌||◌, Option, none, some, List, if◌then◌else◌, Result, ◌>>=◌, ◌>>◌,
  guard, require, for_each, any, Text, codes, text_eq, ok, pos, err,
}
use topohub.Api.{
  HostEndpoint, HostEndpointSpec, RedfishStatus, set_label, text_of, is_set, label_cluster_name,
}
use topohub.Net.Ip.{is_nil}
use topohub.Net.Parse.{parse_ip}

-- The fields of config.AgentConfig that the defaults use.
pub record AgentConfig : Type 0 where
  pub redfish_secret_name : Text
  pub redfish_secret_namespace : Text

-- if p == nil { p = &v }
abbrev pub or_default {ℓ} : {A : Type ℓ} → A → Option A → Option A
or_default v none = some v
or_default v (some x) = some x

-- HTTPS != nil && *HTTPS
abbrev pub is_true : Option Bool → Bool
is_true none = false
is_true (some b) = b

-- The Secret of the configuration stands in where neither field is set and HTTPS is on.
abbrev pub needs_secret : Option Text → Option Text → Option Bool → Bool
needs_secret name namespace https = not (is_set name) && not (is_set namespace) && is_true https

unfoldable pub default_spec : AgentConfig → HostEndpointSpec → HostEndpointSpec
default_spec config spec =
    let https = or_default true spec.https in
    let needed = needs_secret spec.secret_name spec.secret_namespace https in
    record spec {
      secret_name = if needed then some config.redfish_secret_name else spec.secret_name;
      secret_namespace =
          if needed then some config.redfish_secret_namespace else spec.secret_namespace;
      https = https;
      port = or_default (pos 443) spec.port;
    }

-- Default
unfoldable pub default : AgentConfig → HostEndpoint → HostEndpoint
unfolding default_spec
default config host_endpoint = record host_endpoint {
  meta = set_label label_cluster_name (text_of host_endpoint.spec.cluster_name) host_endpoint.meta;
  spec = default_spec config host_endpoint.spec;
}

-- The errors of validateHostEndpoint, one for each return.
pub data EndpointError : Type 0 where
  invalid_ip endpoints_failed statuses_failed : EndpointError
  used_by_endpoint used_by_status : Text → EndpointError
  no_secret no_username no_password not_both updates_not_allowed : EndpointError

-- The client: List of the HostEndpoints and of the RedfishStatus objects, and the keys of the data
-- of a Secret, by its name and its namespace.
pub record Client : Type 0 where
  pub host_endpoints : Option (List HostEndpoint)
  pub redfish_statuses : Option (List RedfishStatus)
  pub get_secret : Text → Text → Option (List Text)

unfoldable pub check_endpoint : HostEndpoint → HostEndpoint → Result EndpointError (Unit {0})
check_endpoint host_endpoint existing =
    guard
      (not (
        not (text_eq existing.meta.name host_endpoint.meta.name)
        && text_eq existing.spec.ip_addr host_endpoint.spec.ip_addr))
      (used_by_endpoint existing.meta.name)

unfoldable pub check_status : HostEndpoint → RedfishStatus → Result EndpointError (Unit {0})
check_status host_endpoint status =
    guard (not (text_eq status.status.basic.ip_addr host_endpoint.spec.ip_addr))
      (used_by_status status.meta.name)

unfoldable pub check_secret : Client → HostEndpointSpec → Result EndpointError (Unit {0})
check_secret client spec =
    if is_set spec.secret_name && is_set spec.secret_namespace
    then (require (client.get_secret (text_of spec.secret_name) (text_of spec.secret_namespace))
          no_secret
        >>= λ keys.
            guard (any (text_eq (codes "username")) keys) no_username
            >> guard (any (text_eq (codes "password")) keys) no_password)
    else ok tt

-- validateHostEndpoint
unfoldable pub validate_host_endpoint : Client → HostEndpoint → Result EndpointError (Unit {0})
validate_host_endpoint client host_endpoint =
    let spec = host_endpoint.spec in
    let set_name = is_set spec.secret_name in
    let set_ns = is_set spec.secret_namespace in
    guard (not (is_nil (parse_ip spec.ip_addr))) invalid_ip
    >> (require client.host_endpoints endpoints_failed >>= for_each (check_endpoint host_endpoint))
    >> (require client.redfish_statuses statuses_failed >>= for_each (check_status host_endpoint))
    >> check_secret client spec
    >> guard (not ((set_name && not set_ns) || (not set_name && set_ns))) not_both

-- ValidateCreate
unfoldable pub validate_create : Client → HostEndpoint → Result EndpointError (Unit {0})
validate_create client host_endpoint = validate_host_endpoint client host_endpoint

-- ValidateUpdate
unfoldable pub validate_update : HostEndpoint → HostEndpoint → Result EndpointError (Unit {0})
validate_update old new = err updates_not_allowed
