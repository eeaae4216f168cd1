-- ===== src/Webhook/BindingIpHook/Unique.antt =====
-- pkg/webhook/bindingip/webhook.go: what an admitted BindingIp promises.
use topohub.Common.{
  ◌≡◌, refl, inl, inr, Bool, true, false, not, ◌&&◌, ◌||◌, Option, none, some, List, [], ◌∷◌, arith,
  if◌then◌else◌, Option-cases, is_ok, for_each, any, Text, text_eq, equal_fold,
}
use topohub.Api.{BindingIp, Subnet}
use topohub.Net.Ip.{is_nil}
use topohub.Net.Parse.{parse_ip}
use topohub.Tools.Range.{is_ip_in_range}
use topohub.Tools.Mac.{is_valid_unicast_mac}
use topohub.Webhook.BindingIpHook.{
  Client, check_used, validate_binding_ip, validate_create, validate_update,
}

-- The two have different names, and one address or one MAC, whatever its case.
unfoldable pub collides : BindingIp → BindingIp → Bool
collides b c =
    not (text_eq c.meta.name b.meta.name)
    && (text_eq c.spec.ip_addr b.spec.ip_addr || equal_fold c.spec.mac_addr b.spec.mac_addr)

loop-collides :
    (b : BindingIp) (cs : List BindingIp)
    → is_ok (for_each (check_used b) cs) ≡ not (any (collides b) cs)
unfolding check_used collides
loop-collides b [] = refl
loop-collides b (c ∷ cs) = ground (arith, loop-collides b cs)

-- whether the subnet of that name has the address in its range
abbrev pub in_subnet : Option Subnet → Text → Bool
in_subnet none ip_addr = false
in_subnet (some subnet) ip_addr =
    not (is_nil (parse_ip ip_addr))
    && is_ip_in_range (parse_ip ip_addr) subnet.spec.ipv4_subnet.ip_range

-- Where the client lists the BindingIps `cs`, validateBindingIP accepts a BindingIp exactly if its
-- MAC is unicast, its subnet exists with the address in its range, and no BindingIp of another name
-- has its address or its MAC.
pub validate_binding_ip-accepts :
    (get_subnet : Text → Option Subnet) (cs : List BindingIp) (b : BindingIp)
    → is_ok (validate_binding_ip (record { get_subnet = get_subnet; binding_ips = some cs }) b) ≡ (
        is_valid_unicast_mac b.spec.mac_addr
        && (in_subnet (get_subnet b.spec.subnet) b.spec.ip_addr && not (any (collides b) cs)))
unfolding validate_binding_ip
validate_binding_ip-accepts get_subnet cs b = elim (Option-cases (get_subnet b.spec.subnet)) [
  | inl z ↦ ground arith
  | inr (subnet, z) ↦ rw z (ground (arith, loop-collides b cs))
]

abbrev pub remove : Text → List BindingIp → List BindingIp
remove name [] = []
remove name (c ∷ cs) =
    let rest = remove name cs in if text_eq c.meta.name name then rest else c ∷ rest

abbrev pub put : BindingIp → List BindingIp → List BindingIp
put b cs = b ∷ remove b.meta.name cs

-- One admitted request: the webhook reads the store that it is about to change; the subnets may be
-- any at each request.
pub data Step : List BindingIp → List BindingIp → Type 0 where
  create :
      {cs : List BindingIp} (client : Client) (b : BindingIp)
      → client.binding_ips ≡ some cs
      → is_ok (validate_create client b) ≡ true
      → Step cs (put b cs)
  update :
      {cs : List BindingIp} (client : Client) (old b : BindingIp)
      → client.binding_ips ≡ some cs
      → is_ok (validate_update client old b) ≡ true
      → Step cs (put b cs)
  remove_one : {cs : List BindingIp} (name : Text) → Step cs (remove name cs)

pub data Reachable : List BindingIp → Type 0 where
  empty : Reachable []
  after : {cs ds : List BindingIp} → Reachable cs → Step cs ds → Reachable ds

-- no two BindingIps of different names collide
abbrev pub all_unique : List BindingIp → Bool
all_unique [] = true
all_unique (b ∷ cs) = not (any (collides b) cs) && all_unique cs

collides-remove :
    (b : BindingIp) (name : Text) (cs : List BindingIp)
    → any (collides b) cs ≡ false
    → any (collides b) (remove name cs) ≡ false
collides-remove b name [] h = refl
collides-remove b name (c ∷ cs) h = ground (arith, collides-remove b name cs)

all_unique-remove :
    (name : Text) (cs : List BindingIp) → all_unique cs ≡ true → all_unique (remove name cs) ≡ true
all_unique-remove name [] h = refl
all_unique-remove name (c ∷ cs) h =
    ground (arith, all_unique-remove name cs, collides-remove c name cs)

put_unique :
    (client : Client) (b : BindingIp) (cs : List BindingIp)
    → client.binding_ips ≡ some cs
    → is_ok (validate_binding_ip client b) ≡ true
    → all_unique cs ≡ true
    → all_unique (put b cs) ≡ true
unfolding validate_binding_ip
put_unique client b cs e v h = elim (Option-cases (client.get_subnet b.spec.subnet)) [
  | inl z ↦ ground arith
  | inr (subnet, z) ↦ ground (
    arith,
    loop-collides b cs,
    all_unique-remove b.meta.name cs,
    collides-remove b b.meta.name cs,
  )
]

Step-unique : {cs ds : List BindingIp} → Step cs ds → all_unique cs ≡ true → all_unique ds ≡ true
unfolding validate_create validate_update
Step-unique {cs = cs} (create client b e v) h = put_unique client b cs e v h
Step-unique {cs = cs} (update client old b e v) h = put_unique client b cs e v h
Step-unique {cs = cs} (remove_one name) h = all_unique-remove name cs h

-- In every store that admitted creations and updates and any deletions lead to from the empty one,
-- no two BindingIps of different names have one address or one MAC in any spelling of its case, if
-- each request is checked against the store that it changes.
pub Reachable-unique : (cs : List BindingIp) → Reachable cs → all_unique cs ≡ true
Reachable-unique _ empty = refl
Reachable-unique _ (after {cs = cs} r st) = Step-unique st (Reachable-unique cs r)
