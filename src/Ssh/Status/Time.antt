-- ===== src/Ssh/Status/Time.antt =====
-- compareSSHStatus against the fields that it reads, and when a check stores the status.
use topohub.Common.{
  ◌≡◌, ◌↔◌, Bool, true, false, ◌&&◌, Option, arith, bool_eq, bool_eq_iff, Text, text_eq,
  text_eq_iff, Map, is_distinct, int_eq_iff,
}
use topohub.Common.Included.{SameEntries, sized-SameEntries}
use topohub.Endpoint.{SshBasicInfo, SshStatusStatus}
use topohub.Ssh.Status.{same_basic, entries_of, same_info, compare_ssh_status}

-- the fields of two Basics that compareSSHStatus reads are equal
abbrev pub SameBasic : SshBasicInfo → SshBasicInfo → Type 0
SameBasic a b =
    (a.type ≡ b.type)
    × (a.ip_addr ≡ b.ip_addr)
    × (a.port ≡ b.port)
    × (a.secret_name ≡ b.secret_name)
    × (a.secret_namespace ≡ b.secret_namespace)
    × (a.ssh_key_auth ≡ b.ssh_key_auth)
    × (a.cluster_name ≡ b.cluster_name)

same_basic-fields : (a b : SshBasicInfo) → (same_basic a b ≡ true) ↔ SameBasic a b
unfolding same_basic
same_basic-fields a b = ground (
  arith,
  text_eq_iff a.type b.type,
  text_eq_iff a.ip_addr b.ip_addr,
  int_eq_iff a.port b.port,
  text_eq_iff a.secret_name b.secret_name,
  text_eq_iff a.secret_namespace b.secret_namespace,
  bool_eq_iff a.ssh_key_auth b.ssh_key_auth,
  text_eq_iff a.cluster_name b.cluster_name,
)

same_info-SameEntries :
    (a b : Map Text)
    → is_distinct a ≡ true
    → is_distinct b ≡ true
    → (same_info a b ≡ true) ↔ SameEntries a b
unfolding same_info
same_info-SameEntries a b d d' = sized-SameEntries a b d d'

all_four :
    (p q r s : Bool)
    → ((p && (q && (r && s))) ≡ true) ↔ ((p ≡ true) × (q ≡ true) × (r ≡ true) × (s ≡ true))
all_four true q r s = ground arith
all_four false q r s = ground arith

-- every map has one entry for each key, as a Go map
abbrev pub is_go_map : Option (Map Text) → Bool
is_go_map m = is_distinct (entries_of m)

pub compare_ssh_status-fields :
    (a b : SshStatusStatus)
    → is_go_map a.info ≡ true
    → is_go_map b.info ≡ true
    → (compare_ssh_status a b ≡ true) ↔ (
        (a.healthy ≡ b.healthy)
        × (a.last_update_time ≡ b.last_update_time)
        × SameBasic a.basic b.basic
        × SameEntries (entries_of a.info) (entries_of b.info))
unfolding compare_ssh_status
compare_ssh_status-fields a b d d' =
    let basic = same_basic-fields a.basic b.basic in
    let info = same_info-SameEntries (entries_of a.info) (entries_of b.info) d d' in
    let h = bool_eq_iff a.healthy b.healthy in
    let t = text_eq_iff a.last_update_time b.last_update_time in
    let parts =
      all_four (bool_eq a.healthy b.healthy) (text_eq a.last_update_time b.last_update_time)
        (same_basic a.basic b.basic) (same_info (entries_of a.info) (entries_of b.info)) in
    (
      λ e. let (p, q, r, i) = parts.0 e in (h.0 p, t.0 q, basic.0 r, info.0 i),
      λ (p, q, r, i). parts.1 (h.1 p, t.1 q, basic.1 r, info.1 i),
    )
