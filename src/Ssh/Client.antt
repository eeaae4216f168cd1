-- ===== src/Ssh/Client.antt =====
-- pkg/sshstatus/ssh/client.go: the connection to an SSH host and what it is asked. The ssh library
-- and the host are arguments.
pub mod Gathered
use topohub.Common.{
  Bool, not, ◌&&◌, Option, none, some, List, [], ◌∷◌, ◌++◌, if◌then◌else◌, is_some, Result, ◌>>=◌,
  ◌>>◌, guard, Text, codes, is_empty, contains, trim_space, Map, insert, ok, err,
}
use topohub.Net.Format.{format_int}
use topohub.Ssh.Cache.{SshConnectCon}

-- the authentication methods
pub data AuthMethod : Type 0 where
  public_keys password : Text → AuthMethod

pub record ClientConfig : Type 0 where
  pub user : Text
  pub auth : AuthMethod
  pub addr : Text

pub data ClientError : Type 0 where
  bad_private_key no_auth_method dial_failed : ClientError

-- net.JoinHostPort
unfoldable pub join_host_port : Text → Text → Text
join_host_port host port =
    if contains b':' host
    then codes "[" ++ (host ++ (codes "]:" ++ port))
    else host ++ (codes ":" ++ port)

-- the choice of the authentication method; `parses` is whether ParsePrivateKey accepts a key
unfoldable pub auth_method : (Text → Bool) → SshConnectCon → Result ClientError AuthMethod
auth_method parses con =
    if con.ssh_key_auth && not (is_empty con.ssh_key)
    then guard (parses con.ssh_key) bad_private_key >> ok (public_keys con.ssh_key)
    else if not (is_empty con.username) && not (is_empty con.password)
    then ok (password con.password)
    else err no_auth_method

-- NewClient, as what it dials with; `dials` is whether Dial succeeds. Its test for a nil Info does not
-- arise: the cache's entries have one.
unfoldable pub new_client :
    (Text → Bool) → (ClientConfig → Bool) → SshConnectCon → Result ClientError ClientConfig
unfolding auth_method join_host_port
new_client parses dials con = auth_method parses con >>= λ auth.
    let config : ClientConfig = record {
      user = con.username;
      auth = auth;
      addr = join_host_port con.info.ip_addr (format_int con.info.port);
    } in
    guard (dials config) dial_failed >> ok config

-- the texts of GetSystemInfo and the commands that print them, in order
abbrev pub commands : Map Text
commands =
    (codes "Hostname", codes "hostname")
    ∷ (codes "OS", codes "cat /etc/os-release | grep PRETTY_NAME | cut -d '\"' -f 2")
    ∷ (codes "Kernel", codes "uname -r")
    ∷ (codes "CPU", codes "cat /proc/cpuinfo | grep 'model name' | head -1 | cut -d ':' -f 2")
    ∷ (codes "CPUCores", codes "nproc")
    ∷ (codes "Memory", codes "free -h | grep Mem | awk '{print $2}'")
    ∷ (codes "GPUCount", codes "lspci | grep Display | wc -l")
    ∷ (
      codes "Network",
      codes "lspci -v | grep -i 'ethernet controller' | grep -vi 'virtual function'",
    )
    ∷ (
      codes "Storage",
      codes
          "lsblk -d -o NAME,SIZE,TYPE,TRAN | grep -E 'disk|nvme' | grep -v 'loop\\|rom' | awk '{print $1,$2}'",
    )
    ∷ []

-- info[key] = strings.TrimSpace(out), if the command did not fail
unfoldable pub with_output : Text → Option Text → Map Text → Map Text
with_output key none info = info
with_output key (some out) info = insert key (trim_space out) info

-- one command after the other: the info, and the texts whose command fails. `run` is RunCommand.
unfoldable pub gather : (Text → Option Text) → Map Text → Map Text → Map Text × List Text
unfolding with_output
gather run [] info = (info, [])
gather run ((key, cmd) ∷ rest) info =
    let (info', errs) = gather run rest (with_output key (run cmd) info) in
    (info', if is_some (run cmd) then errs else key ∷ errs)

-- GetSystemInfo: the info, and the texts that its error names
unfoldable pub get_system_info : (Text → Option Text) → Map Text × List Text
unfolding gather
get_system_info run = gather run commands []

-- IsHealthy
unfoldable pub is_healthy : (Text → Option Text) → Bool
is_healthy run = is_some (run (codes "echo 'Connection test'"))
