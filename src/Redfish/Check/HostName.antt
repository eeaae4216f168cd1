-- ===== src/Redfish/Check/HostName.antt =====
-- pkg/redfishstatus/redfish_status_reconcile.go with pkg/redfish: the name of the host that a check
-- leaves in the status.
use topohub.Common.{
  ◌≡◌, refl, sym, ap, ◌∙◌, inl, inr, true, some, List, [], ◌∷◌, ◌++◌, map, arith, Bool-cases,
  Option-cases, bool_eq, bool_eq_iff, Text, Map, lookup, ok,
}
use topohub.Api.{RedfishStatusStatus, RedfishStatus}
use topohub.Logs.{Event}
use topohub.Redfish.Status as Status
use topohub.Redfish.Status.{
  event, update_status, stored, same_info, compare_redfish_status, refreshed,
  update_redfish_status_info,
}
use topohub.Redfish.Status.Same.{same_info-lookup}
use topohub.Redfish.Status.Repeats.{held, held-events}
use topohub.Redfish.Inventory.{System}
use topohub.Redfish.Info.{get_info}
use topohub.Redfish.Info.Keeps.{host_name}
use topohub.Redfish.Info.Complete.{get_info-host_name}
use topohub.Redfish.Check.{Surroundings, answers_of, to_option, check}

refreshed-info :
    (a : Status.Answers) (s : RedfishStatusStatus) (info : Map Text)
    → a.connects ≡ true
    → a.info ≡ some info
    → ((refreshed a s).0.healthy ≡ true) × ((refreshed a s).0.info ≡ info)
unfolding refreshed
refreshed-info a s info c i = elim (Option-cases (a.log)) [
  | inl z ↦ rw (c, i, z) (refl, refl)
  | inr (es, z) ↦ rw (c, i, z) (refl, refl)
]

compare_parts :
    (a b : RedfishStatusStatus)
    → compare_redfish_status a b ≡ true
    → (bool_eq a.healthy b.healthy ≡ true) × (same_info a.info b.info ≡ true)
unfolding compare_redfish_status
compare_parts a b h = ground arith

held-stored :
    (es : List Event) (s e : RedfishStatus)
    → held stored (map event es ++ (update_status s ∷ [])) e ≡ s
held-stored [] s e = refl
held-stored (v ∷ es) s e = held-stored es s e

-- the object is healthy and has the name
abbrev pub Has : Text → RedfishStatus → Type 0
Has name e = (e.status.healthy ≡ true) × (lookup host_name e.status.info ≡ some name)

update-Has :
    (a : Status.Answers) (e : RedfishStatus) (info : Map Text) (name : Text)
    → a.connects ≡ true
    → a.is_stored ≡ true
    → a.info ≡ some info
    → lookup host_name info ≡ some name
    → let (u, rs) = update_redfish_status_info a (some e) in Has name (held u rs e)
unfolding update_redfish_status_info
update-Has a e info name c st i n =
    let (healthy, same) = refreshed-info a e.status info c i in
    elim (Bool-cases (compare_redfish_status (refreshed a e.status).0 e.status)) [
      | inl z ↦
          let (h, m) = compare_parts (refreshed a e.status).0 e.status z in
          rw (z, held-events (refreshed a e.status).1 e)
            (
              sym ((bool_eq_iff (refreshed a e.status).0.healthy e.status.healthy).0 h) ∙ healthy,
              sym (same_info-lookup (refreshed a e.status).0.info e.status.info m host_name)
                  ∙ ap (lookup host_name) same
                  ∙ n,
            )
      | inr z ↦
          rw (z, st, held-stored (refreshed a e.status).1 _ e)
            (healthy, ap (lookup host_name) same ∙ n)
    ]

-- After a check that connects, whose GetInfo succeeds, and whose update, if it sends one, is stored,
-- the RedfishStatus says that the host is healthy and has the name of the BMC's first system: because
-- the check has stored it, or because it was there.
pub check-Has :
    (b : Surroundings) (e : RedfishStatus) (system : System) (more : List System) (info : Map Text)
    → b.connects ≡ true
    → b.is_stored ≡ true
    → b.service.systems ≡ some (system ∷ more)
    → get_info b.service ≡ ok info
    → let (u, rs) = check b (some e) in Has system.host_name (held u rs e)
unfolding check answers_of
check-Has b e system more info c st s i =
    update-Has (answers_of b) e info system.host_name c st (ap to_option i)
      (get_info-host_name b.service system more info s i)
