-- ===== src/Redfish/Controller.antt =====
-- pkg/redfishstatus/redfish_status_reconcile.go, tools.go and manager.go, and pkg/secret/controller.go:
-- the reconciliation of a RedfishStatus, the periodic checks, and what a new Secret starts. An answer
-- of a host, of the API server and of the Secrets is an argument.
pub mod Cached
pub mod Current
pub mod Agree
use topohub.Common.{
  Bool, true, false, not, ◌&&◌, ◌||◌, Option, none, some, List, [], ◌∷◌, ◌++◌, ◌==◌, if◌then◌else◌,
  is_some, length, Text, codes, text_eq, is_empty, Map, lookup,
}
use topohub.Api.{RedfishStatus}
use topohub.Redfish.Cache.{RedfishConnectCon, RedfishCache, add, remove, get, get_all, update_secet}
use topohub.Redfish.DhcpEvents.{host_type_dhcp}
use topohub.Redfish.Status.{Answers, Request, is_error, update_redfish_status_info}

-- a Secret's Data; none where Get fails
abbrev pub Secrets : Type 0
Secrets = Text → Text → Option (Map Text)

-- string(m[k]), "" for a missing key
abbrev pub string_of : Text → Map Text → Text
string_of k m = elim (lookup k m) [ none ↦ [] | some v ↦ v ]

-- getSecretData: the user name and the password
unfoldable pub get_secret_data : Secrets → Text → Text → Option (Text × Text)
get_secret_data secrets name namespace = elim (secrets namespace name) [
  | none ↦ none
  | some m ↦ some (string_of (codes "username") m, string_of (codes "password") m)
]

-- What the checks are told: the answers of the host of a name to a connection, and the RedfishStatus
-- that Get finds.
pub record World : Type 0 where
  pub ask : Text → RedfishConnectCon → Answers
  pub find : Text → Option RedfishStatus

-- the loop of UpdateRedfishStatusInfoWrapper: whether a check failed, and the requests
unfoldable pub check_all : World → Map RedfishConnectCon → Bool × List Request
unfolding is_error
check_all w [] = (false, [])
check_all w ((name, d) ∷ hosts) =
    let (u, rs) = update_redfish_status_info (w.ask name d) (w.find name) in
    let (failed, more) = check_all w hosts in (is_error u || failed, rs ++ more)

-- UpdateRedfishStatusInfoWrapper of a name, with what the cache has for it
unfoldable pub check_one : World → Text → Option RedfishConnectCon → Bool × List Request
unfolding check_all
check_one w name none = (true, [])
check_one w name (some d) = check_all w ((name, d) ∷ [])

-- UpdateRedfishStatusInfoWrapper
unfoldable pub update_redfish_status_info_wrapper :
    World → Text → RedfishCache → Bool × List Request
unfolding check_one
update_redfish_status_info_wrapper w name c =
    if is_empty name then check_all w (get_all c) else check_one w name (get name c)

-- the user name and the password that processRedfishStatus stores; none where it returns an error
unfoldable pub credentials : Secrets → RedfishStatus → Option (Text × Text)
unfolding get_secret_data
credentials secrets s =
    let basic = s.status.basic in
    if not (is_empty basic.secret_name) && not (is_empty basic.secret_namespace)
    then get_secret_data secrets basic.secret_name basic.secret_namespace
    else some ([], [])

-- the connection of a RedfishStatus
unfoldable pub connection : RedfishStatus → Text × Text → RedfishConnectCon
connection s (username, password) = record {
  info = s.status.basic;
  username = username;
  password = password;
  dhcp_host = text_eq s.status.basic.type host_type_dhcp;
}

-- processRedfishStatus from the login on: the cache, whether it returns an error, and the requests
unfoldable pub cache_and_check :
    World → RedfishStatus → Option (Text × Text) → RedfishCache → RedfishCache × Bool × List Request
unfolding connection update_redfish_status_info_wrapper
cache_and_check w s none c = (c, true, [])
cache_and_check w s (some login) c =
    let c' = add s.meta.name (connection s login) c in
    let checked =
      if length s.status.info == 0
      then update_redfish_status_info_wrapper w s.meta.name c'
      else (false, []) in
    (c', checked.0, checked.1)

-- processRedfishStatus
unfoldable pub process_redfish_status :
    Secrets → World → RedfishStatus → RedfishCache → RedfishCache × Bool × List Request
unfolding credentials cache_and_check
process_redfish_status secrets w s c = cache_and_check w s (credentials secrets s) c

-- what Get finds
pub data Found (A : Type 0) : Type 0 where
  found : A → Found A
  not_found get_failed : Found A

pub data Outcome : Type 0 where
  finished requeue_after failed : Outcome

-- Reconcile of the request for `name`
unfoldable pub reconcile :
    Secrets
    → World
    → Text
    → Found RedfishStatus
    → RedfishCache
    → RedfishCache × Outcome × List Request
unfolding process_redfish_status
reconcile secrets w name get_failed c = (c, failed, [])
reconcile secrets w name not_found c =
    (if is_some (get name c) then remove name c else c, finished, [])
reconcile secrets w name (found s) c =
    if is_empty s.status.basic.ip_addr
    then (c, finished, [])
    else (let (c', is_failed, rs) = process_redfish_status secrets w s c in
        (c', if is_failed then requeue_after else finished, rs))

-- the loop of UpdateSecret over the hosts whose entry changed; its errors are logged
unfoldable pub check_changed : World → RedfishCache → List Text → List Request
check_changed w c [] = []
check_changed w c (name ∷ names) =
    (update_redfish_status_info_wrapper w name c).1 ++ check_changed w c names

-- UpdateSecret
unfoldable pub update_secret :
    World → Text → Text → Text → Text → RedfishCache → RedfishCache × List Request
unfolding check_changed
update_secret w name namespace username password c =
    let (c', changed) = update_secet name namespace username password c in
    (c', check_changed w c' changed)

-- Reconcile of pkg/secret/controller.go; the Secret has the request's name and namespace
unfoldable pub reconcile_secret :
    World → Text → Text → Found (Map Text) → RedfishCache → RedfishCache × Outcome × List Request
unfolding update_secret
reconcile_secret w name namespace get_failed c = (c, failed, [])
reconcile_secret w name namespace not_found c = (c, finished, [])
reconcile_secret w name namespace (found m) c =
    if not (is_some (lookup (codes "username") m)) || not (is_some (lookup (codes "password") m))
    then (c, finished, [])
    else (let (c', rs) =
          update_secret w name namespace (string_of (codes "username") m)
            (string_of (codes "password") m) c in
        (c', finished, rs))
