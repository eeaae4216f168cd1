-- ===== src/Redfish/Entries.antt =====
-- pkg/redfish/log.go: the entries of a BMC's logs. What the gofish library answers are arguments.
pub mod Enabled
use topohub.Common.{
  Option, none, some, List, [], ◌∷◌, ◌++◌, ◌==◌, if◌then◌else◌, Result, ◌>>=◌, require, length,
  Text, codes, text_eq, ok, err,
}
use topohub.Logs.{BmcLog}

-- a log service: the state of its status, and what Entries returns
pub record LogService : Type 0 where
  pub state : Text
  pub entries : Option (List BmcLog)

-- what LogServices of each system or manager in a list returns, where the list is read
abbrev pub Services : Type 0
Services = Option (List (Option (List LogService)))

-- what Systems and Managers return
pub record Answers : Type 0 where
  pub systems : Services
  pub managers : Services

-- the errors of a list that is not read or empty, of the log services and of their entries
pub data LogError : Type 0 where
  not_queried none_found services_unread entries_unread : LogError

-- the log services of the first system or manager
unfoldable pub first_services : Services → Result LogError (List LogService)
first_services none = err not_queried
first_services (some []) = err none_found
first_services (some (first ∷ rest)) = require first services_unread

-- the loop over the log services
unfoldable pub collect : List LogService → Result LogError (List BmcLog)
collect [] = ok []
collect (t ∷ ts) =
    let rest = collect ts in
    if text_eq t.state (codes "Enabled")
    then (require t.entries entries_unread >>= λ entries. rest >>= λ later. ok (entries ++ later))
    else rest

-- GetManagerLog; a manager without log services has none, as the empty list
unfoldable pub get_manager_log : Answers → Result LogError (List BmcLog)
unfolding first_services collect
get_manager_log a = first_services a.managers >>= collect

-- GetSystemsLogEntries
unfoldable pub get_systems_log_entries : Answers → Result LogError (List BmcLog)
unfolding first_services collect
get_systems_log_entries a = first_services a.systems >>= collect

-- the entries, none of an error
abbrev pub entries_or_none : Result LogError (List BmcLog) → List BmcLog
entries_or_none (ok entries) = entries
entries_or_none (err e) = []

-- GetLog
unfoldable pub get_log : Answers → Result LogError (List BmcLog)
unfolding get_manager_log
get_log a = first_services a.systems >>= λ services.
    if length services == 0
    then ok []
    else collect services >>= λ entries. ok (entries ++ entries_or_none (get_manager_log a))
