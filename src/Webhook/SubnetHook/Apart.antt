-- ===== src/Webhook/SubnetHook/Apart.antt =====
-- pkg/webhook/subnet/webhook.go: no two subnets share an interface and a VLAN.
use topohub.Common.{
  ◌≡◌, refl, inl, inr, Bool, true, false, not, ◌&&◌, Option, none, some, List, [], ◌∷◌, arith,
  if◌then◌else◌, Option-cases, is_ok, for_each, any, Text, text_eq, ℤ, ok,
}
use topohub.Api.{Subnet}
use topohub.Net.Prefix.{IpNet, parse_cidr}
use topohub.Tools.Mac.{int32_ptr_equal}
use topohub.Tools.Host.{Netlink}
use topohub.Webhook.SubnetHook.Update.{validate_update-keeps}
use topohub.Webhook.SubnetHook.{
  Host, check_conflict, check_same_interface, validate_interface, validate_subnet, validate_create,
  validate_update, validate_delete,
}

-- The two have different names, one interface and one VLAN id, or none both.
unfoldable pub shares : Subnet → Subnet → Bool
unfolding int32_ptr_equal
shares s t =
    not (text_eq t.meta.name s.meta.name)
    && (text_eq t.spec.interface_spec.interface s.spec.interface_spec.interface
        && int32_ptr_equal t.spec.interface_spec.vlan_id s.spec.interface_spec.vlan_id)

check_conflict-shares :
    (Addr : Type 0) (s t : Subnet)
    → is_ok (check_conflict {Addr = Addr} s.spec.interface_spec s.meta.name t) ≡ not (shares s t)
unfolding check_conflict shares int32_ptr_equal
check_conflict-shares Addr s t =
    same_vlan (text_eq t.meta.name s.meta.name)
      (text_eq t.spec.interface_spec.interface s.spec.interface_spec.interface)
      t.spec.interface_spec.vlan_id s.spec.interface_spec.vlan_id
  where
    same_vlan :
        (b c : Bool) (v w : Option ℤ)
        → is_ok (
            if b
            then ok tt
            else if c
            then check_same_interface {Addr = Addr} t.meta.name v w
            else ok tt)
          ≡ not (not b && (c && int32_ptr_equal v w))
    same_vlan b c none none = ground arith
    same_vlan b c none (some y) = ground arith
    same_vlan b c (some x) none = ground arith
    same_vlan b c (some x) (some y) = ground arith

module _ {Addr : Type 0} (netlink : Netlink Addr) (host : Host Addr) where
  conflicts_eq :
      (s : Subnet) (ts : List Subnet)
      → is_ok (for_each (check_conflict {Addr = Addr} s.spec.interface_spec s.meta.name) ts)
        ≡ not (any (shares s) ts)
  conflicts_eq s [] = refl
  conflicts_eq s (t ∷ ts) = ground (arith, check_conflict-shares Addr s t, conflicts_eq s ts)

  interface-apart :
      (s : Subnet) (net : IpNet) (ts : List Subnet)
      → host.subnets ≡ some ts
      → is_ok (validate_interface netlink host s.spec.interface_spec net s) ≡ true
      → any (shares s) ts ≡ false
  unfolding validate_interface
  interface-apart s net ts e h = ground (arith, conflicts_eq s ts)

  -- A Subnet that validateSubnet accepts shares its interface and VLAN with no Subnet of another
  -- name that the client lists.
  pub validate_subnet-apart :
      (s : Subnet) (ts : List Subnet)
      → host.subnets ≡ some ts
      → is_ok (validate_subnet netlink host s) ≡ true
      → any (shares s) ts ≡ false
  unfolding validate_subnet
  validate_subnet-apart s ts e h = elim (Option-cases (parse_cidr s.spec.ipv4_subnet.subnet)) [
    | inl z ↦ ground arith
    | inr ((ip, net), z) ↦ interface-apart s net ts e (ground arith)
  ]

-- the store after an object is written, or deleted
abbrev pub remove : Text → List Subnet → List Subnet
remove name [] = []
remove name (t ∷ ts) =
    let rest = remove name ts in if text_eq t.meta.name name then rest else t ∷ rest

abbrev pub put : Subnet → List Subnet → List Subnet
put s ts = s ∷ remove s.meta.name ts

-- One admitted request: the webhook reads the store that it is about to change.
pub data Step {Addr : Type 0} (netlink : Netlink Addr) : List Subnet → List Subnet → Type 0 where
  create :
      {ts : List Subnet} (host : Host Addr) (s : Subnet)
      → host.subnets ≡ some ts
      → is_ok (validate_create netlink host s) ≡ true
      → Step netlink ts (put s ts)
  update :
      {ts : List Subnet} (host : Host Addr) (old s : Subnet)
      → host.subnets ≡ some ts
      → is_ok (validate_update netlink host old s) ≡ true
      → Step netlink ts (put s ts)
  remove_one :
      {ts : List Subnet} (host : Host Addr) (s : Subnet)
      → is_ok (validate_delete netlink host s) ≡ true
      → Step netlink ts (remove s.meta.name ts)

pub data Reachable {Addr : Type 0} (netlink : Netlink Addr) : List Subnet → Type 0 where
  empty : Reachable netlink []
  after : {ts us : List Subnet} → Reachable netlink ts → Step netlink ts us → Reachable netlink us

-- no two subnets of different names share an interface and a VLAN
abbrev pub all_apart : List Subnet → Bool
all_apart [] = true
all_apart (s ∷ ts) = not (any (shares s) ts) && all_apart ts

shares-remove :
    (s : Subnet) (name : Text) (ts : List Subnet)
    → any (shares s) ts ≡ false
    → any (shares s) (remove name ts) ≡ false
shares-remove s name [] h = refl
shares-remove s name (t ∷ ts) h = ground (arith, shares-remove s name ts)

all_apart-remove :
    (name : Text) (ts : List Subnet) → all_apart ts ≡ true → all_apart (remove name ts) ≡ true
all_apart-remove name [] h = refl
all_apart-remove name (t ∷ ts) h = ground (arith, all_apart-remove name ts, shares-remove t name ts)

Step-apart :
    {Addr : Type 0} {netlink : Netlink Addr} {ts us : List Subnet}
    → Step netlink ts us
    → all_apart ts ≡ true
    → all_apart us ≡ true
unfolding validate_create
Step-apart {netlink = netlink} {ts = ts} (create host s e v) h = ground (
  arith,
  validate_subnet-apart netlink host s ts e v,
  all_apart-remove s.meta.name ts,
  shares-remove s s.meta.name ts,
)
Step-apart {netlink = netlink} {ts = ts} (update host old s e v) h =
    let (_, w, _) = validate_update-keeps netlink host old s v in
    ground (
      arith,
      validate_subnet-apart netlink host s ts e w,
      all_apart-remove s.meta.name ts,
      shares-remove s s.meta.name ts,
    )
Step-apart {ts = ts} (remove_one host s v) h = all_apart-remove s.meta.name ts h

-- In every store that admitted creations, updates and deletions lead to from the empty one, no two
-- Subnets of different names have the same interface and the same VLAN id (or both none), if each
-- request is checked against the store that it changes.
pub Reachable-apart :
    {Addr : Type 0} (netlink : Netlink Addr) (ts : List Subnet)
    → Reachable netlink ts
    → all_apart ts ≡ true
Reachable-apart netlink _ empty = refl
Reachable-apart netlink ts (after {ts = us} r st) = Step-apart st (Reachable-apart netlink us r)
