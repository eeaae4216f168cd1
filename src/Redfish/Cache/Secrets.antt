-- ===== src/Redfish/Cache/Secrets.antt =====
-- pkg/redfishstatus/data/cache.go: what a new Secret changes in the cache, and the two kinds of
-- hosts.
use topohub.Common.{
  ◌≡◌, refl, inl, inr, true, false, Option, none, some, [], ◌∷◌, arith, if◌then◌else◌, Bool-cases,
  Text, text_eq_refl, text_eq_iff, lookup, is_distinct,
}
use topohub.Redfish.Cache.{
  RedfishConnectCon, RedfishCache, get, get_dhcp_client_info, get_static_client_info, uses,
  update_entry, update_secet,
}

-- the entry that a Secret makes of an entry
abbrev pub renewed : Text → Text → Text → Text → Option RedfishConnectCon → Option RedfishConnectCon
renewed n ns user pass none = none
renewed n ns user pass (some v) =
    if uses n ns v then some (record v { username = user; password = pass }) else some v

-- After UpdateSecet every host that uses the Secret has its user name and password, and every other
-- entry is as before.
pub get-update_secet :
    (n ns user pass name : Text) (c : RedfishCache)
    → get name (update_secet n ns user pass c).0 ≡ renewed n ns user pass (get name c)
unfolding get update_secet update_entry lookup
get-update_secet n ns user pass name [] = refl
get-update_secet n ns user pass name ((k, v) ∷ c) =
    ground (arith, get-update_secet n ns user pass name c)

entry_settles :
    (n ns user pass : Text) (v : RedfishConnectCon)
    → update_entry n ns user pass (update_entry n ns user pass v).0
      ≡ ((update_entry n ns user pass v).0, false)
unfolding update_entry
entry_settles n ns user pass v = elim (Bool-cases (uses n ns v)) [
  | inl z ↦ rw (z, z) (rw (text_eq_refl user, text_eq_refl pass) refl)
  | inr z ↦ rw (z, z) refl
]

-- UpdateSecet settles: called again with the same Secret it changes no host and reports none.
pub update_secet_settles :
    (n ns user pass : Text) (c : RedfishCache)
    → update_secet n ns user pass (update_secet n ns user pass c).0
      ≡ ((update_secet n ns user pass c).0, [])
unfolding update_secet
update_secet_settles n ns user pass [] = refl
update_secet_settles n ns user pass ((k, v) ∷ c) =
    rw (entry_settles n ns user pass v, update_secet_settles n ns user pass c) refl

-- a host is found among the DHCP clients or among the static hosts, by its kind
abbrev pub split_by_kind :
    Option RedfishConnectCon → Option RedfishConnectCon × Option RedfishConnectCon
split_by_kind none = (none, none)
split_by_kind (some v) = if v.dhcp_host then (some v, none) else (none, some v)

-- GetDhcpClientInfo and GetStaticClientInfo part the hosts: each host that Get finds is in exactly
-- the one of its kind, with the same entry, where every name has one entry, as in a Go map.
pub get-split_by_kind :
    (name : Text) (c : RedfishCache)
    → is_distinct c ≡ true
    → (lookup name (get_dhcp_client_info c), lookup name (get_static_client_info c))
      ≡ split_by_kind (get name c)
unfolding get get_dhcp_client_info get_static_client_info lookup
get-split_by_kind name [] h = refl
get-split_by_kind name ((k, v) ∷ c) h = ground (arith, get-split_by_kind name c, text_eq_iff k name)
