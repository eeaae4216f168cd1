-- ===== src/Redfish/Status/Repeats.antt =====
-- UpdateRedfishStatusInfo, check after check: what is stored, and which events are sent again.
use topohub.Common.{
  ℕ, zero, suc, ◌≡◌, refl, sym, ap, ◌∙◌, true, some, List, [], ◌∷◌, ◌++◌, map, is_distinct,
}
use topohub.Api.{RedfishStatusStatus, RedfishStatus, LogStruct}
use topohub.Logs.{BmcLog, bmc_line, Event}
use topohub.Logs.Counts.{fresh, event_of, generate_events-bmc}
use topohub.Redfish.Status.{
  Answers, Request, event, update_status, Updated, stored, unchanged, last_log_time, refreshed,
  summary_of, compare_redfish_status, update_redfish_status_info, noted_log,
}
use topohub.Redfish.Status.Same.{compare_redfish_status-fields}

-- the object that the API server holds after the requests of a check
abbrev pub held : Updated → List Request → RedfishStatus → RedfishStatus
held stored (update_status s ∷ rs) e = s
held stored (event v ∷ rs) e = held stored rs e
held _ rs e = e

-- the requests of n checks in a row that get the same answers
pub repeated : ℕ → Answers → RedfishStatus → List Request
repeated zero a e = []
repeated (suc n) a e =
    let (u, rs) = update_redfish_status_info a (some e) in rs ++ repeated n a (held u rs e)

-- the events of the entries whose time is not the one that the status has noted
abbrev pub news : RedfishStatus → List BmcLog → List Request
news e es = map event (map event_of (fresh (last_log_time e.status.log) (map bmc_line es)))

abbrev pub times {ℓ} : {A : Type ℓ} → ℕ → List A → List A
times zero xs = []
times (suc n) xs = xs ++ times n xs

-- the host answers as the status says that it did
abbrev pub AsBefore : Answers → RedfishStatus → Type 0
AsBefore a e =
    (a.connects ≡ true)
    × (e.status.healthy ≡ true)
    × (a.info ≡ some e.status.info)
    × (is_distinct e.status.info ≡ true)

refreshed-AsBefore :
    (a : Answers) (e : RedfishStatus) (es : List BmcLog)
    → AsBefore a e
    → a.log ≡ some es
    → refreshed a e.status ≡ (
      record (e.status) {
        healthy = true;
        log = noted_log (summary_of e.status.log es) e.status.log;
      },
      (summary_of e.status.log es).events,
    )
unfolding refreshed
refreshed-AsBefore a e es (c, h, i, d) l = rw (c, i, l) refl

compare_with_log :
    (s : RedfishStatusStatus) (l : LogStruct)
    → s.healthy ≡ true
    → is_distinct s.info ≡ true
    → compare_redfish_status (record s { healthy = true; log = l }) s ≡ true
compare_with_log s l h d =
    (compare_redfish_status-fields (record s { healthy = true; log = l }) s d d).1
      (sym h, refl, (refl, refl, refl, refl, refl, refl, refl), λ k. refl)

update-AsBefore :
    (a : Answers) (e : RedfishStatus) (es : List BmcLog)
    → AsBefore a e
    → a.log ≡ some es
    → update_redfish_status_info a (some e) ≡ (unchanged, news e es)
unfolding update_redfish_status_info summary_of
update-AsBefore a e es h l =
    rw
      (
        refreshed-AsBefore a e es h l,
        compare_with_log e.status (noted_log (summary_of e.status.log es) e.status.log) h.1 h.3,
        generate_events-bmc (last_log_time e.status.log) es,
      )
      refl

pub held-events : (es : List Event) (e : RedfishStatus) → held unchanged (map event es) e ≡ e
held-events [] e = refl
held-events (v ∷ es) e = refl

-- While a host answers as its status says that it did, healthy and with the same info, no check
-- stores its log, however many new entries the log has: n checks in a row send n times the events of
-- all entries but those with the time that the status has noted, and no other request.
pub repeated-news :
    (n : ℕ) (a : Answers) (e : RedfishStatus) (es : List BmcLog)
    → AsBefore a e
    → a.log ≡ some es
    → repeated n a e ≡ times n (news e es)
unfolding repeated
repeated-news zero a e es h l = refl
repeated-news (suc n) a e es h l =
    let same =
      held-events (map event_of (fresh (last_log_time e.status.log) (map bmc_line es))) e in
    rw (update-AsBefore a e es h l) (
      ap (λ rs. news e es ++ rs)
        (ap (λ (x : RedfishStatus). repeated n a x) same ∙ repeated-news n a e es h l))
