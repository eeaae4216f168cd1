-- ===== src/Manager.antt =====
-- pkg/subnet/manager.go and data.go: the manager that runs a DHCP server for each Subnet. A server is
-- represented by the Subnet that it serves; its own work is modelled in Dhcp. Its Stop, UpdateService
-- and UpdateBindingIpEvents return no error, so the branches for one do not arise.
pub mod Served
use topohub.Common.{
  Bool, true, false, not, ◌&&◌, Option, none, some, List, [], ◌∷◌, ◌==◌, if◌then◌else◌, is_some,
  length, Text, text_eq, Map, lookup, insert, delete, int_eq, bool_eq,
}
use topohub.Api.{Subnet, SubnetSpec, FeatureSpec}
use topohub.Binding.Cache.{BindingIpInfo, BindingIpCache, get_info_for_subnet}
use topohub.Binding.Controller.{Event, added, deleted}

abbrev pub option_eq {ℓ} : {A : Type ℓ} → (A → A → Bool) → Option A → Option A → Bool
option_eq eq none none = true
option_eq eq (some a) (some b) = eq a b
option_eq eq _ _ = false

unfoldable pub feature_equal : FeatureSpec → FeatureSpec → Bool
feature_equal a b =
    bool_eq a.sync_redfishstatus.enabled b.sync_redfishstatus.enabled
    && bool_eq a.sync_redfishstatus.enable_bind_dhcp_ip b.sync_redfishstatus.enable_bind_dhcp_ip
    && option_eq text_eq a.sync_redfishstatus.default_cluster_name
        b.sync_redfishstatus.default_cluster_name
    && bool_eq a.enable_pxe b.enable_pxe
    && bool_eq a.enable_ztp b.enable_ztp
    && bool_eq a.enable_dhcp_trusted_only b.enable_dhcp_trusted_only

-- reflect.DeepEqual on two specs
unfoldable pub spec_equal : SubnetSpec → SubnetSpec → Bool
unfolding feature_equal
spec_equal a b =
    text_eq a.ipv4_subnet.subnet b.ipv4_subnet.subnet
    && text_eq a.ipv4_subnet.ip_range b.ipv4_subnet.ip_range
    && option_eq text_eq a.ipv4_subnet.gateway b.ipv4_subnet.gateway
    && option_eq text_eq a.ipv4_subnet.dns b.ipv4_subnet.dns
    && text_eq a.interface_spec.interface b.interface_spec.interface
    && option_eq int_eq a.interface_spec.vlan_id b.interface_spec.vlan_id
    && text_eq a.interface_spec.ipv4 b.interface_spec.ipv4
    && option_eq feature_equal a.feature b.feature

abbrev pub SubnetCache : Type 0
SubnetCache = Map Subnet

-- Get
unfoldable pub get : Text → SubnetCache → Option Subnet
get name c = lookup name c

-- GetAllNames
unfoldable pub get_all_names : SubnetCache → List Text
get_all_names [] = []
get_all_names ((name, subnet) ∷ c) = name ∷ get_all_names c

-- Set
unfoldable pub set : Subnet → SubnetCache → SubnetCache
set subnet c = insert subnet.meta.name subnet c

-- Delete
unfoldable pub remove : Text → SubnetCache → SubnetCache
remove name c = delete name c

-- HasSpecChanged
unfoldable pub has_spec_changed : Subnet → SubnetCache → Bool
has_spec_changed subnet c = elim (lookup subnet.meta.name c) [
  | none ↦ true
  | some cached ↦ not (spec_equal cached.spec subnet.spec)
]

-- the manager's state: its cache, and the subnet that each running server serves
pub record SubnetManager : Type 0 where
  pub cache : SubnetCache
  pub servers : Map Subnet

pub data Found : Type 0 where
  found : Subnet → Found
  not_found get_failed : Found

-- what the manager does outside its state; the last is the condition that a failure adds to the
-- status
pub data Action : Type 0 where
  run update_service : Subnet → Action
  stop : Text → Action
  binding_events : Text → List BindingIpInfo → Action
  report_failure : Subnet → Action

pub data Outcome : Type 0 where
  finished failed : Outcome

abbrev outcome_of : Bool → Outcome
outcome_of true = finished
outcome_of false = failed

-- the events of the bindings that the cache has for a new server
abbrev first_events : Text → List BindingIpInfo → List Action
first_events name [] = []
first_events name (info ∷ infos) = binding_events name (info ∷ infos) ∷ []

-- a Subnet whose spec is new or has changed; `runs` is whether its server starts, `is_reported`
-- whether the status is stored where it does not
unfoldable pub apply_spec :
    Bool
    → Bool
    → BindingIpCache
    → Subnet
    → Bool
    → SubnetManager
    → SubnetManager × Outcome × List Action
apply_spec runs is_reported bindings subnet true m = (
  record { cache = set subnet m.cache; servers = insert subnet.meta.name subnet m.servers },
  finished,
  update_service subnet ∷ [],
)
apply_spec true is_reported bindings subnet false m = (
  record { cache = set subnet m.cache; servers = insert subnet.meta.name subnet m.servers },
  finished,
  run subnet ∷ first_events subnet.meta.name (get_info_for_subnet subnet.meta.name bindings),
)
apply_spec false is_reported bindings subnet false m =
    (m, outcome_of is_reported, run subnet ∷ report_failure subnet ∷ [])

-- Reconcile of the request for `name`
unfoldable pub reconcile :
    Bool
    → Bool
    → BindingIpCache
    → Text
    → Found
    → SubnetManager
    → SubnetManager × Outcome × List Action
unfolding apply_spec
reconcile runs is_reported bindings name get_failed m = (m, failed, [])
reconcile runs is_reported bindings name not_found m = (
  record { cache = remove name m.cache; servers = delete name m.servers },
  finished,
  if is_some (lookup name m.servers) then stop name ∷ [] else [],
)
reconcile runs is_reported bindings name (found subnet) m =
    if has_spec_changed subnet m.cache
    then apply_spec runs is_reported bindings subnet (is_some (lookup name m.servers)) m
    else (m, finished, [])

-- what processBindingIpEvents does with an event: it is dropped, sent again later, or handed to the
-- server of a subnet
pub data Routed : Type 0 where
  dropped again : Routed
  handed : Text → Routed

abbrev pub route_to : Text → Option Subnet → Routed
route_to name none = again
route_to name (some subnet) = handed name

-- processBindingIpEvents, one event
unfoldable pub route : Event → Map Subnet → Routed
route (added info) servers =
    if length info.subnet == 0 then dropped else route_to info.subnet (lookup info.subnet servers)
route (deleted info) servers =
    if length info.subnet == 0 then dropped else route_to info.subnet (lookup info.subnet servers)
