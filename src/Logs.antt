-- ===== src/Logs.antt =====
-- GenerateEvents of pkg/redfishstatus/redfish_status_reconcile.go and of pkg/sshstatus/tools.go: the
-- events of a host's log, the newest entry first.
pub mod Counts
use topohub.Common.{
  ℕ, ◌+◌, Bool, true, false, not, ◌&&◌, ◌||◌, none, some, List, [], ◌∷◌, ◌++◌, if◌then◌else◌,
  length, Text, codes, text_eq, is_empty, Map, lookup,
}

-- gofish's LogEntry, the fields that are read
pub record BmcLog : Type 0 where
  pub created : Text
  pub severity : Text
  pub oem_sensor_type : Text
  pub message : Text

-- a log entry as the loop reads it: its time, whether it is a warning, and the text of its event
pub record Line : Type 0 where
  pub time : Text
  pub is_warning : Bool
  pub msg : Text

-- fmt.Sprintf("[%s][%s]: ", a, b)
abbrev prefix : Text → Text → Text
prefix a b = codes "[" ++ (a ++ (codes "][" ++ (b ++ codes "]: ")))

-- the line of an entry of the BMC
unfoldable pub bmc_line : BmcLog → Line
bmc_line e = record {
  time = e.created;
  is_warning = not (text_eq e.severity (codes "OK")) && not (is_empty e.severity);
  msg = prefix e.created e.severity ++ (e.oem_sensor_type ++ (codes " " ++ e.message));
}

-- m[k], "" for a missing key
abbrev pub value_of : Text → Map Text → Text
value_of k m = elim (lookup k m) [ none ↦ [] | some v ↦ v ]

-- the line of an entry of an SSH host
unfoldable pub ssh_line : Map Text → Line
ssh_line e =
    let level = value_of (codes "level") e in
    let timestamp = value_of (codes "timestamp") e in
    record {
      time = timestamp;
      is_warning = text_eq level (codes "ERROR") || text_eq level (codes "WARNING");
      msg = prefix timestamp level ++ value_of (codes "message") e;
    }

pub record Event : Type 0 where
  pub is_warning : Bool
  pub msg : Text

-- the results of GenerateEvents, and the events that it records
pub record Summary : Type 0 where
  pub lastest_time : Text
  pub lastest_msg : Text
  pub lastest_warning_time : Text
  pub lastest_warning_msg : Text
  pub total_msg_count : ℕ
  pub warning_msg_count : ℕ
  pub new_log_account : ℕ
  pub events : List Event

-- the zero values
abbrev pub blank : ℕ → Summary
blank total = record {
  lastest_time = [];
  lastest_msg = [];
  lastest_warning_time = [];
  lastest_warning_msg = [];
  total_msg_count = total;
  warning_msg_count = 0;
  new_log_account = 0;
  events = [];
}

-- `if newLastestWarningMsg == "" { ... }; warningMsgCount++` of a warning
unfoldable pub note_warning : Line → Summary → Summary
note_warning l s =
    if not l.is_warning
    then s
    else if is_empty s.lastest_warning_msg
    then record s {
      lastest_warning_time = l.time;
      lastest_warning_msg = l.msg;
      warning_msg_count = s.warning_msg_count + 1;
    }
    else record s { warning_msg_count = s.warning_msg_count + 1 }

-- the second test of the loop's body; `is_first` is m == 0
unfoldable pub note_new : Text → Bool → Line → Summary → Summary
note_new last_log_time is_first l s = if text_eq l.time last_log_time then s else record s {
  lastest_time = if is_first then l.time else s.lastest_time;
  lastest_msg = if is_first then l.msg else s.lastest_msg;
  new_log_account = s.new_log_account + 1;
  events = s.events ++ (record { is_warning = l.is_warning; msg = l.msg } ∷ []);
}

-- the loop over the entries
unfoldable pub scan : Text → Bool → List Line → Summary → Summary
unfolding note_warning note_new
scan last_log_time is_first [] s = s
scan last_log_time is_first (l ∷ ls) s =
    scan last_log_time false ls (note_new last_log_time is_first l (note_warning l s))

-- GenerateEvents, on the lines of the log
unfoldable pub generate_events : Text → List Line → Summary
unfolding scan
generate_events last_log_time ls = scan last_log_time true ls (blank (length ls))
