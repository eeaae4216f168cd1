-- ===== src/Webhook/StatusHook.antt =====
-- pkg/webhook/redfishstatus/webhook.go and pkg/webhook/sshstatus/webhook.go: the labels that a
-- RedfishStatus and an SSHStatus get. Their validation admits everything.
pub mod Labels
use topohub.Common.{
  not, ◌&&◌, none, some, [], if◌then◌else◌, get_or, Text, text_eq, is_empty, split, lookup,
}
use topohub.Api.{
  ObjectMeta, RedfishStatus, set_label, label_ip_addr, label_client_mode, label_cluster_name,
}
use topohub.Redfish.DhcpEvents.{host_type_dhcp}
use topohub.Endpoint.{SshStatus, host_type_endpoint, host_type_ssh}

-- Labels[k], "" for a missing key
unfoldable pub label_text : Text → ObjectMeta → Text
label_text k m = elim (m.labels) [
  | none ↦ []
  | some l ↦ (elim (lookup k l) [ none ↦ [] | some v ↦ v ])
]

-- Default of a RedfishStatus
unfoldable pub default_redfish : RedfishStatus → RedfishStatus
default_redfish s =
    let basic = s.status.basic in
    let mode = if text_eq basic.type host_type_dhcp then host_type_dhcp else host_type_endpoint in
    record s {
      meta = set_label label_client_mode mode (
          set_label label_ip_addr (get_or (split b'/' basic.ip_addr) 0 [])
            (set_label label_cluster_name basic.cluster_name s.meta));
    }

-- if v != "" && Labels[k] == "" { Labels[k] = v }
unfoldable pub fill_label : Text → Text → ObjectMeta → ObjectMeta
unfolding label_text
fill_label k v m = if not (is_empty v) && is_empty (label_text k m) then set_label k v m else m

-- if Labels == nil { Labels = make(map[string]string) }
unfoldable pub make_labels : ObjectMeta → ObjectMeta
make_labels m = record m { labels = some (elim (m.labels) [ none ↦ [] | some l ↦ l ]) }

-- Default of an SSHStatus
unfoldable pub default_ssh : SshStatus → SshStatus
unfolding fill_label make_labels
default_ssh s =
    let basic = s.status.basic in
    record s {
      meta = fill_label label_cluster_name basic.cluster_name (
          fill_label label_client_mode host_type_ssh
            (fill_label label_ip_addr basic.ip_addr (make_labels s.meta)));
    }
