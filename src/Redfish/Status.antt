-- ===== src/Redfish/Status.antt =====
-- pkg/redfishstatus/redfish_status_reconcile.go and tools.go: the check of a host, which refreshes its
-- RedfishStatus. What the host and the API server answer are arguments; a nil map of info and an
-- empty one are not told apart, as in the program.
pub mod Same
pub mod Repeats
use topohub.Common.{
  ℕ, ◌-◌, ◌%◌, ◌^◌, Bool, true, false, ◌&&◌, Option, none, some, List, [], ◌∷◌, ◌++◌, map, ltb,
  ◌==◌, if◌then◌else◌, is_some, bool_eq, length, Text, text_eq, is_empty, Map, lookup, ℤ, int_eq,
  pos, negsuc,
}
use topohub.Common.Included.{is_included}
use topohub.Api.{BasicInfo, LogStruct, RedfishStatusStatus, RedfishStatus}
use topohub.Logs.{BmcLog, Event, Summary, bmc_line, generate_events}

-- `for k := range b { if _, ok := a[k]; !ok { return false } }`
unfoldable pub has_keys : Map Text → Map Text → Bool
has_keys [] a = true
has_keys ((k, v) ∷ b) a = is_some (lookup k a) && has_keys b a

-- the Basic fields that compareRedfishStatus reads
unfoldable pub same_basic : BasicInfo → BasicInfo → Bool
same_basic a b =
    text_eq a.type b.type
    && (text_eq a.ip_addr b.ip_addr
        && (text_eq a.secret_name b.secret_name
            && (text_eq a.secret_namespace b.secret_namespace
                && (bool_eq a.https b.https
                    && (int_eq a.port b.port && text_eq a.cluster_name b.cluster_name)))))

unfoldable pub same_info : Map Text → Map Text → Bool
unfolding is_included has_keys
same_info a b = length a == length b && (is_included a b && has_keys b a)

-- compareRedfishStatus
unfoldable pub compare_redfish_status : RedfishStatusStatus → RedfishStatusStatus → Bool
unfolding same_basic same_info
compare_redfish_status a b =
    bool_eq a.healthy b.healthy
    && (text_eq a.last_update_time b.last_update_time
        && (same_basic a.basic b.basic && same_info a.info b.info))

-- int32(n)
unfoldable pub int32 : ℕ → ℤ
int32 n = let m = n % 2 ^ 32 in if ltb m (2 ^ 31) then pos m else negsuc (2 ^ 32 - 1 - m)

-- What one check is told: whether NewClient connects, what GetInfo and GetLog return, whether the
-- status is stored, and the time.
pub record Answers : Type 0 where
  pub connects : Bool
  pub info : Option (Map Text)
  pub log : Option (List BmcLog)
  pub is_stored : Bool
  pub now : Text

pub data Request : Type 0 where
  event : Event → Request
  update_status : RedfishStatus → Request

-- lastLogTime
abbrev pub last_log_time : LogStruct → Text
last_log_time l = elim (l.lastest_log) [ none ↦ [] | some e ↦ e.time ]

-- the log of the status after GenerateEvents
unfoldable pub noted_log : Summary → LogStruct → LogStruct
unfolding int32
noted_log s log = if is_empty s.lastest_time then log else record {
  total_log_account = int32 s.total_msg_count;
  warning_log_account = int32 s.warning_msg_count;
  lastest_log = some (record { time = s.lastest_time; message = s.lastest_msg });
  lastest_warning_log =
      some (record { time = s.lastest_warning_time; message = s.lastest_warning_msg });
}

-- the summary of the log that a healthy host returns
unfoldable pub summary_of : LogStruct → List BmcLog → Summary
summary_of log es = generate_events (last_log_time log) (map bmc_line es)

-- `updated.Status` before the comparison, and the events. Healthy is set from the connection; a
-- GetInfo that fails makes only the local `healthy` false.
unfoldable pub refreshed : Answers → RedfishStatusStatus → RedfishStatusStatus × List Event
unfolding noted_log summary_of
refreshed a s = elim (if a.connects then a.info else none) [
  | none ↦ (record s { healthy = a.connects; info = [] }, [])
  | some info ↦ elim (a.log) [
    | none ↦ (record s { healthy = true; info = info }, [])
    | some es ↦ (
      record s { healthy = true; info = info; log = noted_log (summary_of s.log es) s.log },
      (summary_of s.log es).events,
    )
  ]
]

-- the results of UpdateRedfishStatusInfo: (false, err), (true, err), (true, nil), (false, nil)
pub data Updated : Type 0 where
  get_failed store_failed stored unchanged : Updated

-- err != nil
unfoldable pub is_error : Updated → Bool
is_error get_failed = true
is_error store_failed = true
is_error stored = false
is_error unchanged = false

-- UpdateRedfishStatusInfo of the RedfishStatus that Get finds, under the name's lock
unfoldable pub update_redfish_status_info : Answers → Option RedfishStatus → Updated × List Request
unfolding refreshed compare_redfish_status
update_redfish_status_info a none = (get_failed, [])
update_redfish_status_info a (some existing) =
    let (status, events) = refreshed a existing.status in
    if compare_redfish_status status existing.status then (unchanged, map event events) else (
      if a.is_stored then stored else store_failed,
      map event events
          ++ (update_status
                (record existing { status = record status { last_update_time = a.now } })
              ∷ []),
    )
