-- ===== src/Dhcp/Bindings/Bound.antt =====
-- pkg/subnet/dhcpserver/dnsmasq.go: what the events of the BindingIps leave bound.
use topohub.Common.{
  ◌≡◌, inl, inr, ◌&&◌, Option, none, some, arith, if◌then◌else◌, Option-cases, Text, text_eq,
  text_eq_iff, equal_fold, lookup, lookup-insert, lookup-delete,
}
use topohub.Binding.Cache.{BindingIpInfo}
use topohub.Dhcp.Bindings.{
  Manual, client_of, on_added, on_deleted, Answers, added_binding, deleted_binding,
  write_and_reload, monitor_round,
}

-- the MAC that an address is bound to
abbrev pub bound_mac : Text → Manual → Option Text
bound_mac ip manual = elim (lookup ip manual) [ none ↦ none | some item ↦ some item.mac ]

-- After the event that a BindingIp was added, its address is bound to its MAC, and every other
-- address is bound as before, whatever the writing and the reloading answer.
pub monitor_round-added :
    (a : Answers) (info : BindingIpInfo) (manual : Manual) (ip : Text)
    → bound_mac ip (monitor_round a (added_binding info) manual).0
      ≡ (if text_eq info.ip_addr ip then some info.mac_addr else bound_mac ip manual)
unfolding monitor_round on_added write_and_reload client_of
monitor_round-added a info manual ip = elim (Option-cases (lookup info.ip_addr manual)) [
  | inl z ↦ ground (arith, lookup-insert info.ip_addr ip (client_of info) manual)
  | inr (item, z) ↦ ground (
    arith,
    lookup-insert info.ip_addr ip (client_of info) manual,
    text_eq_iff item.mac info.mac_addr,
    text_eq_iff info.ip_addr ip,
  )
]

-- After the event that a BindingIp was deleted, its address is free, unless another MAC is bound to
-- it (that differs in more than its case), and every other address is bound as before.
pub monitor_round-deleted :
    (a : Answers) (info : BindingIpInfo) (manual : Manual) (ip : Text)
    → bound_mac ip (monitor_round a (deleted_binding info) manual).0 ≡ elim (bound_mac ip manual) [
      | none ↦ none
      | some mac ↦
          if text_eq info.ip_addr ip && equal_fold mac info.mac_addr then none else some mac
    ]
unfolding monitor_round on_deleted write_and_reload
monitor_round-deleted a info manual ip = elim (Option-cases (lookup info.ip_addr manual)) [
  | inl z ↦ ground (arith, text_eq_iff info.ip_addr ip)
  | inr (item, z) ↦
      ground (arith, lookup-delete info.ip_addr ip manual, text_eq_iff info.ip_addr ip)
]
