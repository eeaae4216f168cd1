-- ===== src/Manager/Served.antt =====
-- pkg/subnet/manager.go: the servers follow the Subnets.
use topohub.Common.{
  ◌≡◌, refl, inl, inr, Bool, true, false, not, ◌&&◌, some, [], ◌∷◌, arith, ◌==◌, if◌then◌else◌,
  Bool-cases, Option-cases, is_some, length, Text, text_eq, text_eq_iff, Map, lookup, lookup-insert,
  lookup-delete,
}
use topohub.Api.{Subnet}
use topohub.Binding.Cache.{BindingIpCache}
use topohub.Binding.Controller.{Event, added, deleted}
use topohub.Dhcp.Bindings.{Manual, Answers, added_binding, deleted_binding, monitor_round}
use topohub.Dhcp.Deliver.{deliver_one}
use topohub.Manager.{
  SubnetManager, Found, found, not_found, get_failed, has_spec_changed, set, remove, apply_spec,
  reconcile, dropped, handed, route, route_to,
}

-- every cached Subnet is the one that its server serves
unfoldable pub IsServed : SubnetManager → Type 0
IsServed m =
    (name : Text) (s : Subnet) → lookup name m.cache ≡ some s → lookup name m.servers ≡ some s

apply_spec-IsServed :
    (runs is_reported : Bool) (bindings : BindingIpCache) (subnet : Subnet) (b : Bool)
    (m : SubnetManager)
    → IsServed m
    → IsServed (apply_spec runs is_reported bindings subnet b m).0
unfolding IsServed apply_spec set
apply_spec-IsServed runs is_reported bindings subnet true m h name s e = ground (
  arith,
  lookup-insert subnet.meta.name name subnet m.cache,
  lookup-insert subnet.meta.name name subnet m.servers,
  h name s,
)
apply_spec-IsServed true is_reported bindings subnet false m h name s e = ground (
  arith,
  lookup-insert subnet.meta.name name subnet m.cache,
  lookup-insert subnet.meta.name name subnet m.servers,
  h name s,
)
apply_spec-IsServed false is_reported bindings subnet false m h name s e = h name s e

-- Reconciliation keeps the cache and the servers in step: if every cached Subnet is the one that its
-- server serves, then so it is after the reconciliation of any request, whether the Subnet is found,
-- gone or not read, and whether its server starts.
pub reconcile-IsServed :
    (runs is_reported : Bool) (bindings : BindingIpCache) (name : Text) (f : Found)
    (m : SubnetManager)
    → IsServed m
    → IsServed (reconcile runs is_reported bindings name f m).0
unfolding reconcile remove IsServed
reconcile-IsServed runs is_reported bindings name get_failed m h = h
reconcile-IsServed runs is_reported bindings name not_found m h =
    λ j s e. ground (arith, lookup-delete name j m.cache, lookup-delete name j m.servers, h j s)
reconcile-IsServed runs is_reported bindings name (found subnet) m h =
    elim (Bool-cases (has_spec_changed subnet m.cache)) [
      | inl z ↦ rw z (
          apply_spec-IsServed runs is_reported bindings subnet (is_some (lookup name m.servers)) m
            h)
      | inr z ↦ rw z h
    ]

-- the event at the server that it is handed to
abbrev pub at_server : Answers → Event → Manual → Manual
at_server a (added info) manual = (monitor_round a (added_binding info) manual).0
at_server a (deleted info) manual = (monitor_round a (deleted_binding info) manual).0

routed :
    (subnet name : Text) (servers : Map Subnet) (manual changed : Manual)
    → is_some (lookup subnet servers) ≡ true
    → (if not (length name == 0) && text_eq name subnet then changed else manual)
      ≡ elim (if length name == 0 then dropped else route_to name (lookup name servers)) [
        | handed n ↦ if text_eq n subnet then changed else manual
        | _ ↦ manual
      ]
routed subnet [] servers manual changed h = refl
routed subnet (c ∷ name) servers manual changed h =
    elim (Option-cases (lookup (c ∷ name) servers)) [
      | inl z ↦ rw z (ground (arith, text_eq_iff (c ∷ name) subnet))
      | inr (s, z) ↦ rw z (ground arith)
    ]

-- Where the server of a subnet runs, an event of a BindingIp changes its bindings exactly if the
-- manager hands the event to that server.
pub deliver_one-route :
    (a : Answers) (subnet : Text) (e : Event) (servers : Map Subnet) (manual : Manual)
    → is_some (lookup subnet servers) ≡ true
    → deliver_one a subnet e manual ≡ elim (route e servers) [
      | handed name ↦ if text_eq name subnet then at_server a e manual else manual
      | _ ↦ manual
    ]
unfolding deliver_one route
deliver_one-route a subnet (added info) servers manual h =
    routed subnet info.subnet servers manual (monitor_round a (added_binding info) manual).0 h
deliver_one-route a subnet (deleted info) servers manual h =
    routed subnet info.subnet servers manual (monitor_round a (deleted_binding info) manual).0 h
