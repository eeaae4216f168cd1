-- ===== src/Ssh/Cache.antt =====
-- pkg/sshstatus/data/cache.go: how to connect to each SSH host, by the name of its SSHStatus. The
-- entries point to the Basic of an SSHStatus; the controller gives them their final value.
pub mod Keys
use topohub.Common.{
  Bool, ◌&&◌, Option, List, [], ◌∷◌, if◌then◌else◌, Text, text_eq, Map, lookup, insert, delete,
}
use topohub.Endpoint.{SshBasicInfo}

pub record SshConnectCon : Type 0 where
  pub info : SshBasicInfo
  pub username : Text
  pub password : Text
  pub ssh_key : Text
  pub ssh_key_auth : Bool

abbrev pub SshHostCache : Type 0
SshHostCache = Map SshConnectCon

-- Add
unfoldable pub add : Text → SshConnectCon → SshHostCache → SshHostCache
add name con c = insert name con c

-- Get
unfoldable pub get : Text → SshHostCache → Option SshConnectCon
get name c = lookup name c

-- Delete
unfoldable pub remove : Text → SshHostCache → SshHostCache
remove name c = delete name c

-- GetAll, a copy
unfoldable pub get_all : SshHostCache → SshHostCache
get_all c = c

-- the entry uses the Secret
abbrev pub uses : Text → Text → SshConnectCon → Bool
uses secret_name secret_namespace con =
    text_eq con.info.secret_name secret_name && text_eq con.info.secret_namespace secret_namespace

-- `for name, con := range c.hosts { if test(con) { c.hosts[name] = change(con); ... } }`: the hosts
-- after the loop, and the names of those that it changed
unfoldable pub change_hosts :
    (SshConnectCon → Bool)
    → (SshConnectCon → SshConnectCon)
    → SshHostCache
    → SshHostCache × List Text
change_hosts test change [] = ([], [])
change_hosts test change ((name, con) ∷ c) =
    let (c', names) = change_hosts test change c in
    if test con then ((name, change con) ∷ c', name ∷ names) else ((name, con) ∷ c', names)

-- UpdateSecret
unfoldable pub update_secret : Text → Text → Text → Text → SshHostCache → SshHostCache × List Text
unfolding change_hosts
update_secret secret_name secret_namespace username password c =
    change_hosts (uses secret_name secret_namespace)
      (λ con. record con { username = username; password = password }) c

-- UpdateSSHKey
unfoldable pub update_ssh_key : Text → Text → Text → SshHostCache → SshHostCache × List Text
unfolding change_hosts
update_ssh_key secret_name secret_namespace ssh_key c =
    change_hosts (λ con. uses secret_name secret_namespace con && con.ssh_key_auth)
      (λ con. record con { ssh_key = ssh_key }) c
