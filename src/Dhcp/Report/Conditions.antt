-- ===== src/Dhcp/Report/Conditions.antt =====
-- pkg/subnet/dhcpserver/UpdateSubnet.go: attempts settle, and what a move to another node leaves in
-- the conditions.
use topohub.Common.{
  ℕ, suc, ◌+◌, ◌≡◌, refl, inl, inr, Bool, true, false, not, Option, none, some, List, [], ◌∷◌, ◌++◌,
  arith, ◌==◌, if◌then◌else◌, Bool-cases, Text, text_eq, text_eq_refl, ok,
}
use topohub.Dhcp.Status.{DhcpStatusSpec}
use topohub.Dhcp.Report.{
  Condition, SubnetStatus, condition_eq, amounts_eq, list_eq, option_eq, deep_equal, Server,
  dhcp_server, hosted, is_moved, updated, Tried, succeeded, try_update,
}

eq_refl : (n : ℕ) → (n == n) ≡ true
eq_refl n = ground arith

condition_eq_refl : (c : Condition) → condition_eq c c ≡ true
unfolding condition_eq
condition_eq_refl c =
    rw
      (
        text_eq_refl c.type,
        text_eq_refl c.reason,
        text_eq_refl c.message,
        text_eq_refl c.status,
        text_eq_refl c.last_transition_time,
      )
      refl

list_eq_refl : (cs : List Condition) → list_eq condition_eq cs cs ≡ true
list_eq_refl [] = refl
list_eq_refl (c ∷ cs) = rw (condition_eq_refl c, list_eq_refl cs) refl

text_option_refl : (o : Option Text) → option_eq text_eq o o ≡ true
text_option_refl none = refl
text_option_refl (some s) = text_eq_refl s

amounts_option_refl : (o : Option DhcpStatusSpec) → option_eq amounts_eq o o ≡ true
unfolding amounts_eq
amounts_option_refl none = refl
amounts_option_refl (some s) = ground arith

deep_equal_refl : (s : SubnetStatus) → deep_equal s s ≡ true
unfolding deep_equal
deep_equal_refl s = ground (
  arith,
  amounts_option_refl s.dhcp_status,
  text_option_refl s.host_node,
  list_eq_refl s.conditions,
  text_eq_refl s.dhcp_client_details,
)

abbrev differs : Text → Option Text → Bool
differs n o = elim o [ none ↦ true | some x ↦ not (text_eq x n) ]

node_kept : (n : Text) (o : Option Text) → differs n (if differs n o then some n else o) ≡ false
node_kept n none = rw (text_eq_refl n) refl
node_kept n (some x) = elim (Bool-cases (text_eq x n)) [
  | inl z ↦ rw (z, z) refl
  | inr z ↦ rw (z, text_eq_refl n) refl
]

updated-is_moved : (v : Server) (s : SubnetStatus) → is_moved v (updated v s) ≡ false
unfolding is_moved updated
updated-is_moved v s = node_kept v.node_name s.host_node

-- the same server at another time
abbrev at : Text → Server → Server
at now v = record v { now = now }

updated_idem :
    (v : Server) (now : Text) (s : SubnetStatus) → updated (at now v) (updated v s) ≡ updated v s
unfolding updated is_moved
updated_idem v now s = rw (node_kept v.node_name s.host_node) refl

settled :
    (t u : SubnetStatus) (x : Tried × List SubnetStatus)
    → u ≡ t
    → (if deep_equal t u then (succeeded, []) else x) ≡ (succeeded, [])
settled t u x e = rw (e, deep_equal_refl t) refl

-- Once an update is stored, an attempt of the server that knows the same clients and is on the same
-- node sends none, also at a later time.
pub try_update_settles :
    (v : Server) (now : Text) (s : SubnetStatus) (stored : Tried)
    → try_update (record v { now = now }) (ok (updated v s)) stored ≡ (succeeded, [])
unfolding try_update
try_update_settles v now s stored =
    let again = updated (record v { now = now }) (updated v s) in
    settled (updated v s) again (stored, again ∷ []) (updated_idem v now s)

-- the number of conditions of a type
abbrev pub count_type : Text → List Condition → ℕ
count_type t [] = 0
count_type t (c ∷ cs) = let rest = count_type t cs in if text_eq c.type t then suc rest else rest

count_type-append :
    (t : Text) (cs ds : List Condition)
    → count_type t (cs ++ ds) ≡ count_type t cs + count_type t ds
count_type-append t [] ds = omega arith
count_type-append t (c ∷ cs) ds = ground (arith, count_type-append t cs ds)

-- An attempt on another node than the status names adds a condition of the type DhcpServer to those
-- that are there, any other attempt adds none. So a server's second move leaves two conditions of this
-- type.
pub updated-conditions :
    (v : Server) (s : SubnetStatus)
    → count_type dhcp_server (updated v s).conditions
      ≡ count_type dhcp_server s.conditions + (if is_moved v s then 1 else 0)
unfolding updated hosted
updated-conditions v s =
    ground
      (arith, count_type-append dhcp_server s.conditions (hosted v ∷ []), text_eq_refl dhcp_server)
