-- ===== src/Dhcp/Deliver.antt =====
-- pkg/subnet/manager.go: processBindingIpEvents takes the events of the BindingIps to the server of
-- their subnet, once it runs; the theorems follow one server's bound addresses.
use topohub.Common.{
  ◌≡◌, refl, sym, subst, ◌∙◌, ◌⊎◌, inl, inr, true, false, not, ◌&&◌, Option, none, some, List, [],
  ◌∷◌, arith, ◌==◌, if◌then◌else◌, Bool-cases, length, Text, text_eq, text_eq_refl, text_eq_iff,
  is_empty, equal_fold, equal_fold_iff,
}
use topohub.Api.{BindingIp}
use topohub.Binding.Cache.{BindingIpInfo, BindingIpCache, get}
use topohub.Binding.Controller.{
  Event, added, deleted, info_of, spec_changed, process_entry, process_binding_ip,
}
use topohub.Binding.Sync.{get-process_binding_ip}
use topohub.Dhcp.Bindings.{Manual, Answers, added_binding, deleted_binding, monitor_round}
use topohub.Dhcp.Bindings.Bound.{bound_mac, monitor_round-added}

-- an event as the server of `subnet` gets it; one with an empty subnet is dropped
unfoldable pub deliver_one : Answers → Text → Event → Manual → Manual
deliver_one a subnet (added info) manual =
    if not (length info.subnet == 0) && text_eq info.subnet subnet
    then (monitor_round a (added_binding info) manual).0
    else manual
deliver_one a subnet (deleted info) manual =
    if not (length info.subnet == 0) && text_eq info.subnet subnet
    then (monitor_round a (deleted_binding info) manual).0
    else manual

unfoldable pub deliver : Answers → Text → List Event → Manual → Manual
unfolding deliver_one
deliver a subnet [] manual = manual
deliver a subnet (e ∷ es) manual = deliver a subnet es (deliver_one a subnet e manual)

-- processBindingIP sends one event, or none where the cached entry agrees with the BindingIp.
events_of :
    (b : BindingIp) (c : BindingIpCache) (o : Option BindingIpInfo)
    → ((process_entry o b c).1 ≡ added (info_of b) ∷ [])
      ⊎ (((process_entry o b c).1 ≡ [])
          × (old : BindingIpInfo) × (o ≡ some old)
          × (spec_changed old b ≡ false))
unfolding process_entry
events_of b c none = inl refl
events_of b c (some old) = elim (Bool-cases (spec_changed old b)) [
  | inl z ↦ inl (rw z refl)
  | inr z ↦ inr (rw z (ground arith), old, refl, z)
]

bound-deliver-added :
    (a : Answers) (subnet ip : Text) (info : BindingIpInfo) (manual : Manual)
    → bound_mac ip (deliver a subnet (added info ∷ []) manual) ≡ (
        if not (length info.subnet == 0) && text_eq info.subnet subnet && text_eq info.ip_addr ip
        then some info.mac_addr
        else bound_mac ip manual)
unfolding deliver deliver_one
bound-deliver-added a subnet ip info manual = ground (arith, monitor_round-added a info manual ip)

deliver_nothing :
    (a : Answers) (subnet : Text) (manual : Manual) → deliver a subnet [] manual ≡ manual
unfolding deliver
deliver_nothing a subnet manual = refl

-- the address of `info` is bound to its MAC, up to case
unfoldable pub BoundTo : BindingIpInfo → Manual → Type 0
BoundTo info manual =
    (mac : Text) × (bound_mac info.ip_addr manual ≡ some mac)
    × (equal_fold mac info.mac_addr ≡ true)

new_bound :
    (a : Answers) (subnet : Text) (info : BindingIpInfo) (manual : Manual)
    → is_empty subnet ≡ false
    → info.subnet ≡ subnet
    → BoundTo info (deliver a subnet (added info ∷ []) manual)
unfolding BoundTo
new_bound a subnet info manual n s = (
  info.mac_addr,
  bound-deliver-added a subnet info.ip_addr info manual
      ∙ rw s (
          ground (arith, text_eq_refl subnet, text_eq_refl info.ip_addr, length_nonempty subnet n)),
  (equal_fold_iff info.mac_addr info.mac_addr).1 refl,
)
  where
    length_nonempty : (t : Text) → is_empty t ≡ false → (length t == 0) ≡ false
    length_nonempty [] h = ground arith
    length_nonempty (x ∷ t) h = ground arith

other_bound :
    (a : Answers) (subnet : Text) (new info : BindingIpInfo) (manual : Manual)
    → text_eq new.ip_addr info.ip_addr ≡ false
    → BoundTo info manual
    → BoundTo info (deliver a subnet (added new ∷ []) manual)
unfolding BoundTo
other_bound a subnet new info manual d (mac, p, q) =
    (mac, bound-deliver-added a subnet info.ip_addr new manual ∙ ground arith, q)

same_bound :
    (b : BindingIp) (old : BindingIpInfo) (manual : Manual)
    → spec_changed old b ≡ false
    → BoundTo old manual
    → BoundTo (info_of b) manual
unfolding BoundTo spec_changed info_of
same_bound b old manual k (mac, p, q) = (
  mac,
  rw (sym ((text_eq_iff old.ip_addr b.spec.ip_addr).0 (ground arith))) p,
  (equal_fold_iff mac b.spec.mac_addr).1 (
      (equal_fold_iff mac old.mac_addr).0 q
      ∙ (equal_fold_iff old.mac_addr b.spec.mac_addr).0 (ground arith)),
)

old_subnet :
    (old : BindingIpInfo) (b : BindingIp) → spec_changed old b ≡ false → old.subnet ≡ b.spec.subnet
unfolding spec_changed
old_subnet old b k = (text_eq_iff old.subnet b.spec.subnet).0 (ground arith)

other_name : {s t : Text} → s ≡ t → text_eq s t ≡ false → ⊥
other_name {s = s} {t = t} e h = ground (arith, text_eq_iff s t)

-- every cached BindingIp of the subnet is bound
unfoldable pub IsBound : Text → BindingIpCache → Manual → Type 0
IsBound subnet c manual =
    (name : Text) (info : BindingIpInfo)
    → get name c ≡ some info
    → info.subnet ≡ subnet
    → BoundTo info manual

-- Where no BindingIp of another name has the address in the cache, processBindingIP and the delivery
-- of its event keep every cached BindingIp of the subnet bound: its address to its MAC, up to case.
-- The name of the subnet is not empty.
pub process_binding_ip-IsBound :
    (a : Answers) (b : BindingIp) (c : BindingIpCache) (subnet : Text) (manual : Manual)
    → is_empty subnet ≡ false
    → ((name : Text) (info : BindingIpInfo)
        → get name c ≡ some info
        → info.ip_addr ≡ b.spec.ip_addr
        → b.meta.name ≡ name)
    → IsBound subnet c manual
    → IsBound subnet (process_binding_ip b c).0 (deliver a subnet (process_binding_ip b c).1 manual)
unfolding IsBound process_binding_ip info_of
process_binding_ip-IsBound a b c subnet manual n unique bound name info z s =
    elim (Bool-cases (text_eq b.meta.name name)) [
      | inl same ↦
          subst (λ i. BoundTo i (deliver a subnet (process_binding_ip b c).1 manual)) (own same)
            (itself (subst (λ (i : BindingIpInfo). i.subnet ≡ subnet) (sym (own same)) s))
      | inr other ↦ another other
    ]
  where
    own : text_eq b.meta.name name ≡ true → info_of b ≡ info
    own same = ground (arith, get-process_binding_ip b c name)

    itself :
        (info_of b).subnet ≡ subnet
        → BoundTo (info_of b) (deliver a subnet (process_binding_ip b c).1 manual)
    itself t = elim (events_of b c (get b.meta.name c)) [
      | inl e ↦ rw e (new_bound a subnet (info_of b) manual n t)
      | inr (e, old, o, k) ↦ rw e (
          rw (deliver_nothing a subnet manual)
            (same_bound b old manual k (bound b.meta.name old o (old_subnet old b k ∙ t))))
    ]

    before : text_eq b.meta.name name ≡ false → get name c ≡ some info
    before other = ground (arith, get-process_binding_ip b c name)

    apart : text_eq b.meta.name name ≡ false → text_eq b.spec.ip_addr info.ip_addr ≡ false
    apart other = elim (Bool-cases (text_eq b.spec.ip_addr info.ip_addr)) [
      | inl y ↦ absurd (
          other_name
            (unique name info (before other) (sym ((text_eq_iff b.spec.ip_addr info.ip_addr).0 y)))
            other)
      | inr y ↦ y
    ]

    another :
        text_eq b.meta.name name ≡ false
        → BoundTo info (deliver a subnet (process_binding_ip b c).1 manual)
    another other = elim (events_of b c (get b.meta.name c)) [
      | inl e ↦ rw e (
          other_bound a subnet (info_of b) info manual (apart other)
            (bound name info (before other) s))
      | inr (e, old, o, k) ↦
          rw e (rw (deliver_nothing a subnet manual) (bound name info (before other) s))
    ]
