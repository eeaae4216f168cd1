-- ===== src/Dhcp/Interface/Addresses.antt =====
-- pkg/subnet/dhcpserver/interface.go: which addresses the host's interfaces have after the set-up.
use topohub.Common.{
  ◌≡◌, refl, subst, ◌∙◌, inl, inr, true, false, Option, none, some, List, arith, Bool-cases,
  Option-cases, guard-ok, any, Text, text_eq, ℤ, is_positive, ok, err,
}
use topohub.Api.{InterfaceSpec}
use topohub.Tools.Host.{Netlink}
use topohub.Dhcp.Interface.{
  Links, SetupError, not_added, interface_name, and_then, set_up, bring_up, create_vlan_interface,
  add_addr, configure_link, configure_ip, ensure_up, check_host, ensure_vlan, setup_from,
  setup_interface, vlan_name, Outcome,
}

-- What is needed of netlink: the IPv4 addresses of a name are those that AddrList lists, a link has
-- the name that it is found by, LinkSetUp changes no addresses, LinkAdd none but those of the new
-- name, and AddrAdd adds the address, and changes no other link.
pub record Laws {S Link Addr : Type 0} (netlink : Netlink Addr) (links : Links S Link Addr)
    : Type 0 where
  pub name_of : Link → Text
  pub addrs : Text → S → List Addr
  pub named : (n : Text) (l : Link) (s : S) → links.link_by_name n s ≡ some l → name_of l ≡ n
  pub listed :
      (l : Link) (as' : List Addr) (s : S)
      → links.addr_list l s ≡ some as'
      → as' ≡ addrs (name_of l) s
  pub up_keeps : (n : Text) (l : Link) (s : S) → addrs n (links.link_set_up l s).0 ≡ addrs n s
  pub add_keeps :
      (n name : Text) (parent : Link) (id : ℤ) (s : S)
      → text_eq name n ≡ false
      → addrs n (links.link_add name parent id s).0 ≡ addrs n s
  pub addr_added :
      (l : Link) (a : Addr) (s : S)
      → (links.addr_add l a s).1 ≡ true
      → any (λ x. netlink.equal x a) (addrs (name_of l) (links.addr_add l a s).0) ≡ true
  pub addr_keeps :
      (n : Text) (l : Link) (a : Addr) (s : S)
      → text_eq (name_of l) n ≡ false
      → addrs n (links.addr_add l a s).0 ≡ addrs n s

module _ {S Link Addr : Type 0} {netlink : Netlink Addr} {links : Links S Link Addr}
    (laws : Laws netlink links) where
  -- every interface but `name` has the same addresses
  abbrev pub Keeps : Text → S → S → Type 0
  Keeps name s s' = (n : Text) → text_eq name n ≡ false → laws.addrs n s' ≡ laws.addrs n s

  -- the interface `name` has the address `ip`
  abbrev pub Has : Text → Text → S → Type 0
  Has name ip s =
      (addr : Addr) × (netlink.parse_addr ip ≡ some addr)
      × (any (λ x. netlink.equal x addr) (laws.addrs name s) ≡ true)

  set_up-Keeps :
      (name : Text) (e : SetupError Addr) (l : Link) (s : S)
      → Keeps name s (set_up netlink links e l s).0
  unfolding set_up
  set_up-Keeps name e l s n d = laws.up_keeps n l s

  and_then-Keeps :
      (name : Text) (s : S) (next : S → Outcome netlink links) (first : Outcome netlink links)
      → Keeps name s first.0
      → ((t : S) → Keeps name t (next t).0)
      → Keeps name s (and_then netlink links next first).0
  and_then-Keeps name s next (t, err e) h k n d = h n d
  and_then-Keeps name s next (t, ok u) h k n d = k t n d ∙ h n d

  bring_up-Keeps :
      (name : Text) (x : S × Option Link) (s : S)
      → Keeps name s x.0
      → Keeps name s (bring_up netlink links name x).0
  unfolding bring_up set_up
  bring_up-Keeps name (t, none) s h n d = h n d
  bring_up-Keeps name (t, some l) s h n d = laws.up_keeps n l t ∙ h n d

  create-Keeps :
      (parent : Link) (name : Text) (id : ℤ) (o : Option Link) (s : S)
      → Keeps name s (create_vlan_interface netlink links parent name id o s).0
  unfolding create_vlan_interface set_up
  create-Keeps parent name id (some l) s n d = laws.up_keeps n l s
  create-Keeps parent name id none s n d =
      let h =
        bring_up-Keeps name (links.link_add name parent id s) s
          (λ n d. laws.add_keeps n name parent id s d) n d in
      ground arith

  add_addr-Keeps :
      (ip : Text) (l : Link) (a : Addr) (as' : List Addr) (s : S)
      → Keeps (laws.name_of l) s (add_addr netlink links ip l a as' s).0
  unfolding add_addr
  add_addr-Keeps ip l a as' s n d = let h = laws.addr_keeps n l a s d in ground arith

  configure_link-Keeps :
      (ip : Text) (l : Link) (a : Option Addr) (o : Option (List Addr)) (s : S)
      → Keeps (laws.name_of l) s (configure_link netlink links ip l a o s).0
  unfolding configure_link
  configure_link-Keeps ip l none o s n d = refl
  configure_link-Keeps ip l (some a) none s n d = refl
  configure_link-Keeps ip l (some a) (some as') s n d = add_addr-Keeps ip l a as' s n d

  configure_ip-Keeps :
      (name ip : Text) (o : Option Link) (s : S)
      → links.link_by_name name s ≡ o
      → Keeps name s (configure_ip netlink links name ip o s).0
  unfolding configure_ip
  configure_ip-Keeps name ip none s e = λ n d. refl
  configure_ip-Keeps name ip (some l) s e =
      subst
        (λ m.
          Keeps m s
            (configure_link netlink links ip l (netlink.parse_addr ip) (links.addr_list l s) s).0)
        (laws.named name l s e)
        (configure_link-Keeps ip l (netlink.parse_addr ip) (links.addr_list l s) s)

  add_addr-Has :
      (ip : Text) (l : Link) (a : Addr) (as' : List Addr) (s : S)
      → netlink.parse_addr ip ≡ some a
      → as' ≡ laws.addrs (laws.name_of l) s
      → (add_addr netlink links ip l a as' s).1 ≡ ok tt
      → Has (laws.name_of l) ip (add_addr netlink links ip l a as' s).0
  unfolding add_addr
  add_addr-Has ip l a as' s e f h = elim (Bool-cases (any (λ x. netlink.equal x a) as')) [
    | inl z ↦ (a, e, rw z (rw f at z))
    | inr z ↦
        let added = guard-ok (links.addr_add l a s).1 (not_added ip) (rw z at h) in
        (a, e, rw z (laws.addr_added l a s added))
  ]

  configure_link-Has :
      (ip : Text) (l : Link) (o : Option Addr) (as' : Option (List Addr)) (s : S)
      → netlink.parse_addr ip ≡ o
      → links.addr_list l s ≡ as'
      → (configure_link netlink links ip l o as' s).1 ≡ ok tt
      → Has (laws.name_of l) ip (configure_link netlink links ip l o as' s).0
  unfolding configure_link
  configure_link-Has ip l none as' s e f h = cc
  configure_link-Has ip l (some a) none s e f h = cc
  configure_link-Has ip l (some a) (some as') s e f h =
      add_addr-Has ip l a as' s e (laws.listed l as' s f) h

  configure_ip-Has :
      (name ip : Text) (o : Option Link) (s : S)
      → links.link_by_name name s ≡ o
      → (configure_ip netlink links name ip o s).1 ≡ ok tt
      → Has name ip (configure_ip netlink links name ip o s).0
  unfolding configure_ip
  configure_ip-Has name ip none s e h = cc
  configure_ip-Has name ip (some l) s e h =
      subst
        (λ m.
          Has m ip
            (configure_link netlink links ip l (netlink.parse_addr ip) (links.addr_list l s) s).0)
        (laws.named name l s e)
        (configure_link-Has ip l (netlink.parse_addr ip) (links.addr_list l s) s refl refl h)

  ensure_up-Keeps :
      (name base : Text) (l : Link) (s : S) → Keeps name s (ensure_up netlink links base l s).0
  unfolding ensure_up set_up
  ensure_up-Keeps name base l s n d = let h = laws.up_keeps n l s in ground arith

  ensure_vlan-Keeps :
      (iface : InterfaceSpec) (l : Link) (s : S)
      → Keeps (interface_name iface) s (ensure_vlan netlink links iface l s).0
  unfolding ensure_vlan interface_name
  ensure_vlan-Keeps iface l s = elim (Option-cases (iface.vlan_id)) [
    | inl z ↦ rw z (λ n d. refl)
    | inr (id, z) ↦ elim (Bool-cases (is_positive id)) [
      | inl p ↦
          let name = vlan_name iface.interface id in
          rw (z, p) (create-Keeps l name id (links.link_by_name name s) s)
      | inr p ↦ rw (z, p) (λ n d. refl)
    ]
  ]

  abbrev Configures : InterfaceSpec → S → Outcome netlink links → Type 0
  Configures iface s x =
      Keeps (interface_name iface) s x.0 × (x.1 ≡ ok tt → Has (interface_name iface) iface.ipv4 x.0)

  and_then-Configures :
      (iface : InterfaceSpec) (s : S) (next : S → Outcome netlink links)
      (first : Outcome netlink links)
      → Keeps (interface_name iface) s first.0
      → ((t : S) → Configures iface t (next t))
      → Configures iface s (and_then netlink links next first)
  and_then-Configures iface s next (t, err e) h k = (h, λ f. cc)
  and_then-Configures iface s next (t, ok u) h k = (λ n d. (k t).0 n d ∙ h n d, (k t).1)

  setup_from-Configures :
      (iface : InterfaceSpec) (o : Option Link) (s : S)
      → Configures iface s (setup_from netlink links iface o s)
  unfolding setup_from check_host
  setup_from-Configures iface none s = (λ n d. refl, λ f. cc)
  setup_from-Configures iface (some parent) s =
      let name = interface_name iface in
      let up = ensure_up netlink links iface.interface parent s in
      let checked = and_then netlink links (check_host netlink links iface parent) up in
      let vlan = and_then netlink links (ensure_vlan netlink links iface parent) checked in
      and_then-Configures iface s _ vlan
        (and_then-Keeps name s (ensure_vlan netlink links iface parent) checked
          (and_then-Keeps name s (check_host netlink links iface parent) up
            (ensure_up-Keeps name iface.interface parent s) (λ t n d. refl))
          (ensure_vlan-Keeps iface parent))
        (λ t.
          let o = links.link_by_name name t in
          (configure_ip-Keeps name iface.ipv4 o t refl, configure_ip-Has name iface.ipv4 o t refl))

  -- When setupInterface succeeds, the Subnet's interface, or its VLAN interface where the Subnet has a
  -- VLAN id, has the address of the Subnet's Interface. Whether it succeeds or fails, every other
  -- interface of the host keeps the IPv4 addresses that it had.
  pub setup_interface-Configures :
      (iface : InterfaceSpec) (s : S)
      → let (s', result) = setup_interface netlink links iface s in
        Keeps (interface_name iface) s s'
        × (result ≡ ok tt → Has (interface_name iface) iface.ipv4 s')
  unfolding setup_interface
  setup_interface-Configures iface s =
      setup_from-Configures iface (links.link_by_name iface.interface s) s
