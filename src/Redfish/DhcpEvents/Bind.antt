-- ===== src/Redfish/DhcpEvents/Bind.antt =====
-- pkg/redfishstatus/dhcp.go: the BindingIps that are created for DHCP clients, and what becomes of
-- a client that goes and comes back.
use topohub.Common.{
  ◌≡◌, refl, ◌∙◌, inl, inr, Bool, true, false, not, ◌&&◌, ◌||◌, none, some, List, [], ◌∷◌, arith,
  if◌then◌else◌, Bool-cases, Option-cases, any, all, Text, codes, text_eq, text_eq_refl, Map,
  lookup, insert, lookup-insert,
}
use topohub.Api.{BindingIp, RedfishStatus, label_client_active}
use topohub.Dhcp.Client.{DhcpClientInfo}
use topohub.Redfish.DhcpEvents.{
  Setting, Answers, found, Request, update_status, update_object, create_binding, binding_of,
  stands_in_way, create_binding_ip, refreshed, is_stale, add_existing, handle_dhcp_add, deactivated,
  is_enabled,
}

-- the BindingIp has the client's address, or the name that the client's BindingIp would have
abbrev pub is_taken : DhcpClientInfo → BindingIp → Bool
is_taken client existing =
    text_eq existing.meta.name (binding_of client).meta.name
    || text_eq existing.spec.ip_addr client.ip

in_way_eq :
    (client : DhcpClientInfo) (bs : List BindingIp)
    → any (stands_in_way (binding_of client)) bs ≡ any (is_taken client) bs
unfolding stands_in_way binding_of
in_way_eq client [] = refl
in_way_eq client (b ∷ bs) = ground (arith, in_way_eq client bs)

-- Where the client lists the BindingIps `bs`, a BindingIp is requested for a DHCP client exactly if
-- binding is enabled for it and no BindingIp has its address or the name derived from it; a retry is
-- asked for exactly if that request fails.
pub create_binding_ip-requests :
    (a : Answers) (client : DhcpClientInfo) (bs : List BindingIp)
    → a.binding_ips ≡ some bs
    → create_binding_ip a client ≡ (
        if is_enabled client.enable_bind_ip && not (any (is_taken client) bs)
        then (not a.is_binding_created, create_binding (binding_of client) ∷ [])
        else (false, []))
unfolding create_binding_ip
create_binding_ip-requests a client bs e = rw e (ground (arith, in_way_eq client bs))

fresh_status :
    (set : Setting) (client : DhcpClientInfo) (existing : RedfishStatus)
    → is_stale set client (refreshed set client existing) ≡ false
unfolding is_stale refreshed
fresh_status set client existing =
    ground (arith, text_eq_refl client.mac, text_eq_refl (set.format client.dhcp_expire_time))

-- Once the status of a client's RedfishStatus is stored, a repeated event of the same client sends
-- only what the BindingIp still asks for.
pub handle_dhcp_add_settles :
    (set : Setting) (a : Answers) (client : DhcpClientInfo) (existing : RedfishStatus)
    → a.existing ≡ found (refreshed set client existing)
    → (handle_dhcp_add set a client).1 ≡ (create_binding_ip a client).1
unfolding handle_dhcp_add add_existing
handle_dhcp_add_settles set a client existing e = rw e (rw (fresh_status set client existing) refl)

-- the object that a request stores is that of an inactive client
abbrev pub is_inactive : RedfishStatus → Bool
is_inactive r = not r.status.basic.active_dhcp_client && elim (r.meta.labels) [
  | none ↦ false
  | some l ↦ elim (lookup label_client_active l) [
    | none ↦ false
    | some v ↦ text_eq v (codes "false")
  ]
]

abbrev pub stores_inactive : Request → Bool
stores_inactive (update_status r) = is_inactive r
stores_inactive (update_object r) = is_inactive r
stores_inactive _ = true

binding_inactive :
    (a : Answers) (client : DhcpClientInfo)
    → all stores_inactive (create_binding_ip a client).1 ≡ true
unfolding create_binding_ip
binding_inactive a client = elim (Option-cases a.binding_ips) [
  | inl z ↦ ground arith
  | inr (bs, z) ↦ ground arith
]

existing_inactive :
    (set : Setting) (a : Answers) (client : DhcpClientInfo) (x : RedfishStatus)
    → is_inactive (refreshed set client x) ≡ true
    → all stores_inactive (add_existing set a client x).1 ≡ true
unfolding add_existing
existing_inactive set a client x h = elim (Bool-cases (is_stale set client x)) [
  | inr z ↦ rw z (binding_inactive a client)
  | inl z ↦ elim (Bool-cases a.is_status_updated) [
    | inr y ↦ rw (z, y) (ground arith)
    | inl y ↦ rw (z, y) (ground (arith, binding_inactive a client))
  ]
]

deactivated_inactive :
    (set : Setting) (client : DhcpClientInfo) (x : RedfishStatus)
    → is_inactive (refreshed set client (deactivated x)) ≡ true
unfolding refreshed deactivated
deactivated_inactive set client x =
    rw (same (elim (x.meta.labels) [ none ↦ [] | some l ↦ l ])) (text_eq_refl (codes "false"))
  where
    same :
        (l : Map Text)
        → lookup label_client_active (insert label_client_active (codes "false") l)
          ≡ some (codes "false")
    same l =
        lookup-insert label_client_active label_client_active (codes "false") l
        ∙ rw (text_eq_refl label_client_active) refl

-- When the client of a deactivated RedfishStatus comes back, the object stays deactivated: no
-- request of the event sets the client active again, in the status or in the label.
pub handle_dhcp_add-deactivated :
    (set : Setting) (a : Answers) (client : DhcpClientInfo) (existing : RedfishStatus)
    → a.existing ≡ found (deactivated existing)
    → all stores_inactive (handle_dhcp_add set a client).1 ≡ true
unfolding handle_dhcp_add
handle_dhcp_add-deactivated set a client existing e = rw e (
    existing_inactive set (record a { existing = found (deactivated existing) }) client
      (deactivated existing) (deactivated_inactive set client existing))
