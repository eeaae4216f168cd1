-- ===== src/Ssh/Controller.antt =====
-- pkg/sshstatus/ssh_status_reconcile.go and tools.go: the reconciliation of an SSHStatus, which takes
-- its Basic from the HostEndpoint that owns it, and the periodic checks.
pub mod Cached
pub mod Restart
use topohub.Common.{
  Bool, true, false, not, ◌&&◌, Option, none, some, List, [], ◌∷◌, ◌++◌, if◌then◌else◌, is_some,
  Result, ◌>>=◌, guard, require, is_ok, any, Text, codes, text_eq, is_empty, Map, lookup, ℤ, ok,
  err,
}
use topohub.Api.{HostEndpoint, text_of}
use topohub.Endpoint.{SshBasicInfo, SshStatusStatus, SshStatus, host_type_endpoint}
use topohub.Ssh.Cache.{SshConnectCon, SshHostCache, add, remove, get, get_all}
use topohub.Ssh.Status.{Answers, is_error, update_ssh_status_info}

-- metav1.OwnerReference, the fields that are read
pub record Owner : Type 0 where
  pub kind : Text
  pub name : Text

-- a Subnet, the fields that are read
pub record SubnetClients : Type 0 where
  pub name : Text
  pub dhcp_client_details : Text

-- What a reconciliation is told: Get of a HostEndpoint, the Data of a Secret, the list of the Subnets,
-- the answers to the check of a connection, and
-- the SSHStatus that Get finds in it. `unmarshal` is json.Unmarshal into a map, its keys.
pub record World : Type 0 where
  pub host_endpoint : Text → Option HostEndpoint
  pub secret : Text → Text → Option (Map Text)
  pub subnets : Option (List SubnetClients)
  pub unmarshal : Text → Option (List Text)
  pub ask : Text → SshConnectCon → Answers
  pub find : Text → Option SshStatus
  pub now : Text

-- the errors of processSSHStatus; the nil port of a HostEndpoint is a panic
pub data ProcessError : Type 0 where
  no_host_endpoint nil_port no_secret not_updated : ProcessError

-- the status that the HostEndpoint gives, by the port that it dereferences
unfoldable pub status_of : Text → HostEndpoint → Option ℤ → Result ProcessError SshStatusStatus
status_of now e none = err nil_port
status_of now e (some port) = ok (record {
  healthy = false;
  last_update_time = now;
  basic = record {
    cluster_name = text_of e.spec.cluster_name;
    type = host_type_endpoint;
    ip_addr = e.spec.ip_addr;
    secret_name = text_of e.spec.secret_name;
    secret_namespace = text_of e.spec.secret_namespace;
    port = port;
    ssh_key_auth = false;
    subnet_name = none;
  };
  info = some [];
})

-- the first owner that is a HostEndpoint
unfoldable pub endpoint_owner : List Owner → Option Text
endpoint_owner [] = none
endpoint_owner (o ∷ os) =
    if text_eq o.kind (codes "HostEndpoint") then some o.name else endpoint_owner os

-- the status of the SSHStatus after the loop over its owners
unfoldable pub owned_status :
    World → List Owner → SshStatusStatus → Result ProcessError SshStatusStatus
unfolding status_of endpoint_owner
owned_status w owners s =
    if not (is_empty s.basic.ip_addr) then ok s else elim (endpoint_owner owners) [
      | none ↦ ok s
      | some name ↦
          require (w.host_endpoint name) no_host_endpoint >>= λ e. status_of w.now e e.spec.port
    ]

-- string(m[k]), "" for a missing key
abbrev pub string_of : Text → Map Text → Text
string_of k m = elim (lookup k m) [ none ↦ [] | some v ↦ v ]

-- the login of a connection
pub record Login : Type 0 where
  pub username : Text
  pub password : Text
  pub ssh_key : Text
  pub ssh_key_auth : Bool

-- getSecretData
unfoldable pub get_secret_data : World → Text → Text → Option Login
get_secret_data w name namespace = elim (w.secret namespace name) [
  | none ↦ none
  | some m ↦ some (record {
    username = string_of (codes "username") m;
    password = string_of (codes "password") m;
    ssh_key = string_of (codes "ssh-privatekey") m;
    ssh_key_auth = not (is_empty (string_of (codes "ssh-privatekey") m));
  })
]

-- the login that processSSHStatus uses; none where getSecretData fails
unfoldable pub login_of : World → SshBasicInfo → Option Login
unfolding get_secret_data
login_of w basic =
    if not (is_empty basic.secret_name) && not (is_empty basic.secret_namespace)
    then get_secret_data w basic.secret_name basic.secret_namespace
    else some (record { username = []; password = []; ssh_key = []; ssh_key_auth = false })

-- whether the details of a Subnet have the address
unfoldable pub has_client : (Text → Option (List Text)) → Text → SubnetClients → Bool
has_client unmarshal ip s =
    if is_empty s.dhcp_client_details
    then false
    else elim (unmarshal s.dhcp_client_details) [ none ↦ false | some ips ↦ any (text_eq ip) ips ]

-- the name of the first Subnet of the loop that has the address
unfoldable pub subnet_of : (Text → Option (List Text)) → Text → List SubnetClients → Option Text
unfolding has_client
subnet_of unmarshal ip [] = none
subnet_of unmarshal ip (s ∷ ss) =
    if has_client unmarshal ip s then some s.name else subnet_of unmarshal ip ss

-- p == nil || *p != v
unfoldable pub differs : Option Text → Text → Bool
differs none v = true
differs (some s) v = not (text_eq s v)

-- the name of the Subnet that has the address, where the Subnets are listed
unfoldable pub known_subnet : World → Text → Option Text
unfolding subnet_of
known_subnet w ip = elim (if is_empty ip then none else w.subnets) [
  | none ↦ none
  | some ss ↦ subnet_of w.unmarshal ip ss
]

-- the SSHStatus with the name of its Subnet, and the update that this sends
unfoldable pub name_subnet : Option Text → SshStatus → SshStatus × List SshStatus
unfolding differs
name_subnet none s = (s, [])
name_subnet (some name) s =
    let named = record s {
      status = record (s.status) { basic = record (s.status.basic) { subnet_name = some name } };
    } in
    if differs s.status.basic.subnet_name name then (named, named ∷ []) else (s, [])

-- updateSubnetNameFromDhcpClientDetails: the SSHStatus, which it changes in place also where the
-- update fails, and the update
unfoldable pub update_subnet_name : World → SshStatus → SshStatus × List SshStatus
unfolding known_subnet name_subnet
update_subnet_name w s = name_subnet (known_subnet w s.status.basic.ip_addr) s

abbrev pub connection : SshBasicInfo → Login → SshConnectCon
connection basic l = record {
  info = basic;
  username = l.username;
  password = l.password;
  ssh_key = l.ssh_key;
  ssh_key_auth = l.ssh_key_auth;
}

-- processSSHStatus from the login on. The cache's entry points to the Basic, so that it has the
-- subnet's name too.
unfoldable pub cache_and_check :
    World
    → SshStatus
    → Option Login
    → SshHostCache
    → SshHostCache × Result ProcessError (Unit {0}) × List SshStatus
unfolding update_subnet_name
cache_and_check w s none c = (c, err no_secret, [])
cache_and_check w s (some l) c =
    let (named, rs) = update_subnet_name w s in
    let con = connection named.status.basic l in
    let (u, more) = update_ssh_status_info (w.ask s.meta.name con) con (w.find s.meta.name) in
    (add s.meta.name con c, guard (not (is_error u)) not_updated, rs ++ more)

-- processSSHStatus from the status on
unfoldable pub process_status :
    World
    → SshStatus
    → Result ProcessError SshStatusStatus
    → SshHostCache
    → SshHostCache × Result ProcessError (Unit {0}) × List SshStatus
unfolding login_of cache_and_check
process_status w s (err e) c = (c, err e, [])
process_status w s (ok status) c =
    cache_and_check w (record s { status = status }) (login_of w status.basic) c

-- processSSHStatus
unfoldable pub process_ssh_status :
    World
    → List Owner
    → SshStatus
    → SshHostCache
    → SshHostCache × Result ProcessError (Unit {0}) × List SshStatus
unfolding owned_status process_status
process_ssh_status w owners s c = process_status w s (owned_status w owners s.status) c

-- what Get finds for a request
pub data Found : Type 0 where
  found : List Owner → SshStatus → Found
  not_found get_failed : Found

pub data Outcome : Type 0 where
  finished requeue_after failed : Outcome

-- Reconcile of the request for `name`
unfoldable pub reconcile :
    World → Text → Found → SshHostCache → SshHostCache × Outcome × List SshStatus
unfolding process_ssh_status
reconcile w name get_failed c = (c, failed, [])
reconcile w name not_found c = (if is_some (get name c) then remove name c else c, finished, [])
reconcile w name (found owners s) c =
    if not (is_empty s.status.basic.ip_addr)
    then (c, finished, [])
    else (let (c', result, rs) = process_ssh_status w owners s c in
        (c', if is_ok result then finished else requeue_after, rs))

-- the loop of UpdateSSHStatusInfoWrapper over all hosts; its errors are logged
unfoldable pub check_all : World → Map SshConnectCon → List SshStatus
check_all w [] = []
check_all w ((name, d) ∷ hosts) =
    (update_ssh_status_info (w.ask name d) d (w.find name)).1 ++ check_all w hosts

-- UpdateSSHStatusInfoWrapper of a name, with what the cache has for it
unfoldable pub check_one : World → Text → Option SshConnectCon → Bool × List SshStatus
check_one w name none = (true, [])
check_one w name (some d) =
    let (u, rs) = update_ssh_status_info (w.ask name d) d (w.find name) in (is_error u, rs)

-- UpdateSSHStatusInfoWrapper: whether it returns an error, and the updates
unfoldable pub update_ssh_status_info_wrapper : World → Text → SshHostCache → Bool × List SshStatus
unfolding check_all check_one
update_ssh_status_info_wrapper w name c =
    if is_empty name then (false, check_all w (get_all c)) else check_one w name (get name c)
