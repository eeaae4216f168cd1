-- ===== src/Redfish/Cache.antt =====
-- pkg/redfishstatus/data/cache.go: how to connect to each host, a map by the host's name. The
-- entries are pointers; nothing else holds them, since Get and the lists copy.
pub mod Secrets
use topohub.Common.{
  Bool, false, not, ◌&&◌, ◌||◌, Option, List, [], ◌∷◌, if◌then◌else◌, Text, text_eq, Map, lookup,
  insert, delete,
}
use topohub.Api.{BasicInfo}

pub record RedfishConnectCon : Type 0 where
  pub info : BasicInfo
  pub username : Text
  pub password : Text
  pub dhcp_host : Bool

abbrev pub RedfishCache : Type 0
RedfishCache = Map RedfishConnectCon

-- Add
unfoldable pub add : Text → RedfishConnectCon → RedfishCache → RedfishCache
add name con c = insert name con c

-- Delete
unfoldable pub remove : Text → RedfishCache → RedfishCache
remove name c = delete name c

-- Get
unfoldable pub get : Text → RedfishCache → Option RedfishConnectCon
get name c = lookup name c

-- GetAll, a copy
unfoldable pub get_all : RedfishCache → RedfishCache
get_all c = c

-- GetDhcpClientInfo
unfoldable pub get_dhcp_client_info : RedfishCache → RedfishCache
get_dhcp_client_info [] = []
get_dhcp_client_info ((k, v) ∷ c) =
    let rest = get_dhcp_client_info c in if v.dhcp_host then (k, v) ∷ rest else rest

-- GetStaticClientInfo
unfoldable pub get_static_client_info : RedfishCache → RedfishCache
get_static_client_info [] = []
get_static_client_info ((k, v) ∷ c) =
    let rest = get_static_client_info c in if not v.dhcp_host then (k, v) ∷ rest else rest

-- the entry uses the Secret
abbrev pub uses : Text → Text → RedfishConnectCon → Bool
uses secret_name secret_namespace v =
    text_eq v.info.secret_name secret_name && text_eq v.info.secret_namespace secret_namespace

-- the entry with the Secret's user name and password, and whether that changed it
unfoldable pub update_entry :
    Text → Text → Text → Text → RedfishConnectCon → RedfishConnectCon × Bool
update_entry secret_name secret_namespace username password v =
    if uses secret_name secret_namespace v
    then (
      record v { username = username; password = password },
      not (text_eq v.username username) || not (text_eq v.password password),
    )
    else (v, false)

-- UpdateSecet: the cache after it, and the names of the hosts that changed
unfoldable pub update_secet : Text → Text → Text → Text → RedfishCache → RedfishCache × List Text
update_secet secret_name secret_namespace username password [] = ([], [])
update_secet secret_name secret_namespace username password ((k, v) ∷ c) =
    let (v', is_changed) = update_entry secret_name secret_namespace username password v in
    let (c', names) = update_secet secret_name secret_namespace username password c in
    ((k, v') ∷ c', if is_changed then k ∷ names else names)
