-- ===== src/Binding/Controller.antt =====
-- pkg/bindingip/BindingIPReconcile.go: the controller. An event is a value sent on one of its two
-- channels; a step returns the cache and the events it sent.
use topohub.Common.{
  Bool, false, not, ◌&&◌, ◌||◌, Option, none, some, List, [], ◌∷◌, if◌then◌else◌, Text, text_eq,
  equal_fold, bool_eq,
}
use topohub.Api.{BindingIp, Subnet}
use topohub.Net.Ip.{is_nil}
use topohub.Net.Parse.{parse_ip}
use topohub.Tools.Range.{is_ip_in_range}
use topohub.Binding.Cache.{BindingIpInfo, BindingIpCache, add, get, remove}

pub data Event : Type 0 where
  added deleted : BindingIpInfo → Event

-- the entry that a BindingIp has in the cache
unfoldable pub info_of : BindingIp → BindingIpInfo
info_of binding_ip = record {
  subnet = binding_ip.spec.subnet;
  ip_addr = binding_ip.spec.ip_addr;
  mac_addr = binding_ip.spec.mac_addr;
  valid = binding_ip.valid;
  hostname = binding_ip.meta.name;
}

-- reflect.DeepEqual on two entries
unfoldable pub deep_equal : BindingIpInfo → BindingIpInfo → Bool
deep_equal a b =
    text_eq a.subnet b.subnet
    && (text_eq a.ip_addr b.ip_addr
        && (text_eq a.mac_addr b.mac_addr
            && (bool_eq a.valid b.valid && text_eq a.hostname b.hostname)))

-- whether the DHCP server has to hear of a change
unfoldable pub spec_changed : BindingIpInfo → BindingIp → Bool
spec_changed old_data binding_ip =
    not (text_eq old_data.ip_addr binding_ip.spec.ip_addr)
    || not (equal_fold old_data.mac_addr binding_ip.spec.mac_addr)
    || not (text_eq old_data.subnet binding_ip.spec.subnet)

-- what follows on the entry that Get finds
unfoldable pub process_entry :
    Option BindingIpInfo → BindingIp → BindingIpCache → BindingIpCache × List Event
process_entry none binding_ip c =
    (add binding_ip.meta.name (info_of binding_ip) c, added (info_of binding_ip) ∷ [])
process_entry (some old_data) binding_ip c =
    if spec_changed old_data binding_ip
    then (add binding_ip.meta.name (info_of binding_ip) c, added (info_of binding_ip) ∷ [])
    else if not (deep_equal old_data (info_of binding_ip))
    then (add binding_ip.meta.name (info_of binding_ip) c, [])
    else (c, [])

-- processBindingIP
unfoldable pub process_binding_ip : BindingIp → BindingIpCache → BindingIpCache × List Event
unfolding process_entry
process_binding_ip binding_ip c = process_entry (get binding_ip.meta.name c) binding_ip c

-- what the API server answers to an update
pub data Reply : Type 0 where
  done conflict failed : Reply

-- what the controller's Get finds
pub data Found : Type 0 where
  found : BindingIp → Found
  not_found get_failed : Found

-- ctrl.Result and error
pub data Outcome : Type 0 where
  finished requeue requeue_after_minute error : Outcome

-- the status that updateBindingIPStatus computes; `subnet` is what the client's Get finds
unfoldable pub new_valid : Option Subnet → BindingIp → Bool
new_valid none binding_ip = false
new_valid (some subnet) binding_ip =
    let ip = parse_ip binding_ip.spec.ip_addr in
    not (is_nil ip) && is_ip_in_range ip subnet.spec.ipv4_subnet.ip_range

-- updateBindingIPStatus: the status that it asks the server to store, if it differs
unfoldable pub update_binding_ip_status : Option Subnet → BindingIp → Option Bool
update_binding_ip_status subnet binding_ip =
    let valid = new_valid subnet binding_ip in
    if not (bool_eq valid binding_ip.valid) then some valid else none

-- no request, no error
abbrev reply_of : Option Bool → Reply → Reply
reply_of none r = done
reply_of (some valid) r = r

-- Reconcile of the request for `name`
unfoldable pub reconcile :
    Text
    → Found
    → (Text → Option Subnet)
    → Reply
    → BindingIpCache
    → Outcome × BindingIpCache × List Event
reconcile name get_failed get_subnet r c = (error, c, [])
reconcile name not_found get_subnet r c = elim (get name c) [
  | none ↦ (finished, c, [])
  | some entry ↦ (finished, remove name c, deleted (record entry { valid = false }) ∷ [])
]
reconcile name (found binding_ip) get_subnet r c =
    elim (reply_of (update_binding_ip_status (get_subnet binding_ip.spec.subnet) binding_ip) r) [
      | conflict ↦ (requeue, c, [])
      | failed ↦ (error, c, [])
      | done ↦
          let (c', events) = process_binding_ip binding_ip c in (requeue_after_minute, c', events)
    ]
