-- ===== src/Dhcp/Status/Amounts.antt =====
-- pkg/subnet/dhcpserver/UpdateSubnet.go: what the amounts of the status count.
use topohub.Common.{
  ℕ, ◌+◌, ◌≡◌, refl, Bool, true, false, not, ◌&&◌, Option, none, some, [], ◌∷◌, arith,
  if◌then◌else◌, is_some, length, Text, text_eq_iff, Map, lookup, insert, lookup-insert, ℤ,
  is_distinct,
}
use topohub.Tools.Count.{u64}
use topohub.Dhcp.Client.{DhcpClientInfo}
use topohub.Dhcp.Status.{ClientInfo, add_bound, leased_entry, add_leased, client_map}

-- an address is a key of the map
abbrev pub has_key {ℓ} : {V : Type ℓ} → Text → Map V → Bool
has_key ip m = is_some (lookup ip m)

length-insert :
    (ip : Text) (e : ClientInfo) (m : Map ClientInfo)
    → length (insert ip e m) ≡ (if has_key ip m then length m else length m + 1)
unfolding insert lookup
length-insert ip e [] = refl
length-insert ip e ((j, w) ∷ m) = ground (arith, length-insert ip e m)

leased_step :
    (format : Option ℤ → Text) (client : DhcpClientInfo) (ip : Text) (m : Map ClientInfo) (n : ℕ)
    (o : Option ClientInfo) (e : ClientInfo)
    → lookup ip m ≡ o
    → n ≡ u64 (length m)
    → u64 (n + (leased_entry format client o).1) ≡ u64 (length (insert ip e m))
unfolding leased_entry
leased_step format client ip m n none e z h = ground (arith, length-insert ip e m)
leased_step format client ip m n (some old) e z h = ground (arith, length-insert ip e m)

add_leased_counts :
    (format : Option ℤ → Text) (clients : Map DhcpClientInfo) (m : Map ClientInfo) (n : ℕ)
    → n ≡ u64 (length m)
    → (add_leased format clients (m, n)).1 ≡ u64 (length (add_leased format clients (m, n)).0)
unfolding add_leased
add_leased_counts format [] m n h = h
add_leased_counts format ((ip, client) ∷ clients) m n h =
    let step = leased_entry format client (lookup ip m) in
    add_leased_counts format clients (insert ip step.0 m) (u64 (n + step.1))
      (leased_step format client ip m n (lookup ip m) step.0 refl h)

-- no address of the clients is a key of the map
abbrev is_fresh : Map ClientInfo → Map DhcpClientInfo → Bool
is_fresh m [] = true
is_fresh m ((ip, client) ∷ clients) = not (has_key ip m) && is_fresh m clients

is_fresh-insert :
    (ip : Text) (e : ClientInfo) (m : Map ClientInfo) (clients : Map DhcpClientInfo)
    → has_key ip clients ≡ false
    → is_fresh m clients ≡ true
    → is_fresh (insert ip e m) clients ≡ true
unfolding lookup
is_fresh-insert ip e m [] k h = refl
is_fresh-insert ip e m ((j, c) ∷ clients) k h = ground (
  arith,
  is_fresh-insert ip e m clients,
  lookup-insert ip j e m,
  text_eq_iff ip j,
  text_eq_iff j ip,
)

bound_entry : (Option ℤ → Text) → DhcpClientInfo → ClientInfo
bound_entry format client = record {
  mac = client.mac;
  is_bound = true;
  is_allocated = false;
  hostname = client.hostname;
  dhcp_expire_time = if is_some client.dhcp_expire_time then format client.dhcp_expire_time else [];
}

add_bound_counts :
    (format : Option ℤ → Text) (clients : Map DhcpClientInfo) (m : Map ClientInfo) (n : ℕ)
    → is_distinct clients ≡ true
    → is_fresh m clients ≡ true
    → n ≡ u64 (length m)
    → (add_bound format clients (m, n)).1 ≡ u64 (length (add_bound format clients (m, n)).0)
unfolding add_bound bound_entry
add_bound_counts format [] m n d f h = h
add_bound_counts format ((ip, client) ∷ clients) m n d f h =
    let e = bound_entry format client in
    add_bound_counts format clients (insert ip e m) (u64 (n + 1)) (ground arith)
      (is_fresh-insert ip e m clients (ground arith) (ground arith))
      (ground (arith, length-insert ip e m))

fresh_empty : (clients : Map DhcpClientInfo) → is_fresh [] clients ≡ true
unfolding lookup
fresh_empty [] = refl
fresh_empty ((ip, c) ∷ clients) = fresh_empty clients

-- The counter of updateClientFunc is the number of addresses in its map, in uint64: an address that
-- is both bound and leased counts once, where the bound addresses have one entry each, as in a Go map.
pub client_map_counts :
    (format : Option ℤ → Text) (leases bindings : Map DhcpClientInfo)
    → is_distinct bindings ≡ true
    → (client_map format leases bindings).1 ≡ u64 (length (client_map format leases bindings).0)
unfolding client_map
client_map_counts format leases bindings d =
    let b = add_bound format bindings ([], 0) in
    add_leased_counts format leases b.0 b.1
      (add_bound_counts format bindings [] 0 d (fresh_empty bindings) refl)
