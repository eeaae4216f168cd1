-- ===== src/Ssh/Status.antt =====
-- pkg/sshstatus/ssh_status_reconcile.go and tools.go: the check of an SSH host. What the host and the
-- API server answer are arguments.
pub mod Time
use topohub.Common.{
  Bool, true, false, ◌&&◌, Option, none, some, List, [], ◌∷◌, ◌==◌, if◌then◌else◌, bool_eq, length,
  Text, text_eq, is_empty, Map, int_eq,
}
use topohub.Common.Included.{is_included}
use topohub.Endpoint.{SshBasicInfo, SshStatusStatus, SshStatus}
use topohub.Ssh.Cache.{SshConnectCon}

-- the Basic fields that compareSSHStatus reads
unfoldable pub same_basic : SshBasicInfo → SshBasicInfo → Bool
same_basic a b =
    text_eq a.type b.type
    && (text_eq a.ip_addr b.ip_addr
        && (int_eq a.port b.port
            && (text_eq a.secret_name b.secret_name
                && (text_eq a.secret_namespace b.secret_namespace
                    && (bool_eq a.ssh_key_auth b.ssh_key_auth
                        && text_eq a.cluster_name b.cluster_name)))))

-- the entries of a map, none of a nil one
abbrev pub entries_of : Option (Map Text) → Map Text
entries_of none = []
entries_of (some m) = m

-- the comparison of the infos
unfoldable pub same_info : Map Text → Map Text → Bool
same_info a b = length a == length b && is_included a b

-- compareSSHStatus
unfoldable pub compare_ssh_status : SshStatusStatus → SshStatusStatus → Bool
unfolding same_basic same_info
compare_ssh_status a b =
    bool_eq a.healthy b.healthy
    && (text_eq a.last_update_time b.last_update_time
        && (same_basic a.basic b.basic && same_info (entries_of a.info) (entries_of b.info)))

-- What one check is told: whether the client connects and is healthy, what GetSystemInfo returns,
-- whether the status is stored, and the time.
pub record Answers : Type 0 where
  pub is_healthy : Bool
  pub system_info : Option (Map Text)
  pub is_stored : Bool
  pub now : Text

-- `updated.Status` before the comparison; a GetSystemInfo that fails leaves it healthy, with the info
-- that it has
unfoldable pub refreshed : Answers → SshConnectCon → SshStatusStatus → SshStatusStatus
refreshed a d s = record {
  healthy = a.is_healthy;
  last_update_time = a.now;
  basic = if is_empty s.basic.ip_addr then d.info else s.basic;
  info = elim (if a.is_healthy then a.system_info else none) [ none ↦ s.info | some m ↦ some m ];
}

-- the results of UpdateSSHStatusInfo but for the health: an error of Get or of the update, or none
pub data Updated : Type 0 where
  get_failed store_failed stored unchanged : Updated

-- err != nil
unfoldable pub is_error : Updated → Bool
is_error get_failed = true
is_error store_failed = true
is_error stored = false
is_error unchanged = false

-- UpdateSSHStatusInfo of the SSHStatus that Get finds: the result, and the update that it sends
unfoldable pub update_ssh_status_info :
    Answers → SshConnectCon → Option SshStatus → Updated × List SshStatus
unfolding refreshed compare_ssh_status
update_ssh_status_info a d none = (get_failed, [])
update_ssh_status_info a d (some existing) =
    let status = refreshed a d existing.status in
    if compare_ssh_status status existing.status
    then (unchanged, [])
    else (if a.is_stored then stored else store_failed, record existing { status = status } ∷ [])
