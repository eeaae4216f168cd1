-- ===== src/Redfish/Entries/Enabled.antt =====
-- pkg/redfish/log.go: which entries GetLog returns.
use topohub.Common.{
  ◌≡◌, refl, inl, inr, Bool, true, false, not, ◌||◌, Option, none, some, List, [], ◌∷◌, ◌++◌, arith,
  ◌==◌, if◌then◌else◌, Bool-cases, Option-cases, is_some, ◌>>=◌, length, all, codes, text_eq, ok,
  err,
}
use topohub.Logs.{BmcLog}
use topohub.Redfish.Entries.{
  LogService, Services, Answers, entries_unread, first_services, collect, get_manager_log,
  entries_or_none, get_log,
}

abbrev pub is_enabled : LogService → Bool
is_enabled t = text_eq t.state (codes "Enabled")

-- an enabled service has its entries read
abbrev pub is_readable : LogService → Bool
is_readable t = not (is_enabled t) || is_some t.entries

abbrev pub entries_of : LogService → List BmcLog
entries_of t = if is_enabled t then elim (t.entries) [ none ↦ [] | some es ↦ es ] else []

abbrev pub all_entries : List LogService → List BmcLog
all_entries [] = []
all_entries (t ∷ ts) = entries_of t ++ all_entries ts

-- the entries of the first manager's enabled services, if all of them are read
abbrev pub manager_entries : Services → List BmcLog
manager_entries none = []
manager_entries (some []) = []
manager_entries (some (none ∷ ms)) = []
manager_entries (some (some ts ∷ ms)) = if all is_readable ts then all_entries ts else []

collect-all :
    (ts : List LogService)
    → collect ts ≡ (if all is_readable ts then ok (all_entries ts) else err entries_unread)
unfolding collect
collect-all [] = refl
collect-all (t ∷ ts) = elim (Bool-cases (is_enabled t)) [
  | inr z ↦ rw (z, collect-all ts) refl
  | inl z ↦ elim (Option-cases (t.entries)) [
    | inl o ↦ rw (z, o) refl
    | inr (es, o) ↦ elim (Bool-cases (all is_readable ts)) [
      | inl b ↦ rw (z, o, collect-all ts, b) refl
      | inr b ↦ rw (z, o, collect-all ts, b) refl
    ]
  ]
]

picked :
    (b : Bool) (es : List BmcLog)
    → entries_or_none (if b then ok es else err entries_unread) ≡ (if b then es else [])
picked true es = refl
picked false es = refl

manager-entries : (a : Answers) → entries_or_none (get_manager_log a) ≡ manager_entries a.managers
unfolding get_manager_log first_services
manager-entries a = of a.managers
  where
    of : (o : Services) → entries_or_none (first_services o >>= collect) ≡ manager_entries o
    of none = refl
    of (some []) = refl
    of (some (none ∷ ms)) = refl
    of (some (some ts ∷ ms)) = rw (collect-all ts) (picked (all is_readable ts) (all_entries ts))

not_empty : (t : LogService) (ts : List LogService) → (length (t ∷ ts) == 0) ≡ false
not_empty t ts = ground arith

with_managers :
    (b : Bool) (es ms : List BmcLog)
    → ((if b then ok es else err entries_unread) >>= λ entries. ok (entries ++ ms))
      ≡ (if b then ok (es ++ ms) else err entries_unread)
with_managers true es ms = refl
with_managers false es ms = refl

-- Where the log services of the BMC's first system are read, GetLog returns the entries of the
-- enabled ones in order, and then those of the first manager, whose errors are ignored; it fails
-- exactly if the entries of an enabled service of the system are not read. A system without log
-- services has no entries, and then none of the manager are returned either.
pub get_log-entries :
    (a : Answers) (ts : List LogService) (more : List (Option (List LogService)))
    → a.systems ≡ some (some ts ∷ more)
    → get_log a ≡ (
        if all is_readable ts
        then ok (if length ts == 0 then [] else all_entries ts ++ manager_entries a.managers)
        else err entries_unread)
unfolding get_log first_services
get_log-entries a [] more h = rw h refl
get_log-entries a (t ∷ ts) more h =
    rw (h, not_empty t ts, collect-all (t ∷ ts), manager-entries a)
      (with_managers (all is_readable (t ∷ ts)) (all_entries (t ∷ ts)) (manager_entries a.managers))
