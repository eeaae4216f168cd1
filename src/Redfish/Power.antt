-- ===== src/Redfish/Power.antt =====
-- pkg/redfish/power.go, and GetSupportedResetTypes of getinfo.go: the requests to the BMC that change
-- a host's power. What the BMC answers is an argument.
pub mod Retry
pub mod Requests
use topohub.Common.{
  ℕ, zero, suc, ◌+◌, Bool, true, false, not, ◌&&◌, ◌||◌, Option, none, some, List, [], ◌∷◌, ◌++◌,
  leb, ◌==◌, if◌then◌else◌, any, Text, codes, text_eq, is_empty,
}

-- strings.HasPrefix(s, p)
unfoldable pub has_prefix : Text → Text → Bool
has_prefix s [] = true
has_prefix [] (c ∷ p) = false
has_prefix (a ∷ s) (c ∷ p) = a == c && has_prefix s p

-- strings.Contains(s, p)
unfoldable pub contains_text : Text → Text → Bool
unfolding has_prefix
contains_text [] p = has_prefix [] p
contains_text (a ∷ s) p = has_prefix (a ∷ s) p || contains_text s p

-- a parameter of the ResetActionInfo that the BMC returns
pub record Parameter : Type 0 where
  pub name : Text
  pub allowable_values : List Text

-- `for ... { if len(joinStr) > 0 { joinStr += "," }; joinStr += string(item) }`
unfoldable pub join_types : Text → List Text → Text
join_types joined [] = joined
join_types joined (t ∷ ts) =
    join_types ((if is_empty joined then joined else joined ++ codes ",") ++ t) ts

-- the loop over the parameters
unfoldable pub reset_parameter : List Parameter → Text
unfolding join_types
reset_parameter [] = []
reset_parameter (p ∷ ps) =
    if text_eq p.name (codes "ResetType")
    then join_types [] p.allowable_values
    else reset_parameter ps

-- GetSupportedResetTypes; `info` is none where the ResetActionInfo is not read or not decoded
unfoldable pub get_supported_reset_types : List Text → Option (List Parameter) → Text
unfolding join_types reset_parameter
get_supported_reset_types supported info =
    let joined = join_types [] supported in
    if not (is_empty joined) then joined else elim info [ none ↦ [] | some ps ↦ reset_parameter ps ]

abbrev pub graceful_restart : Text
graceful_restart = codes "GracefulRestart"

abbrev pub force_restart : Text
force_restart = codes "ForceRestart"

-- the commands that are reset types themselves
abbrev pub reset_cmds : List Text
reset_cmds =
    codes "On"
    ∷ codes "ForceOn"
    ∷ codes "ForceOff"
    ∷ codes "GracefulShutdown"
    ∷ force_restart
    ∷ graceful_restart
    ∷ []

abbrev pub boot_cmd_reset_pxe_once : Text
boot_cmd_reset_pxe_once = codes "PxeReboot"

-- What one round of the retry is told: the IDs of the systems that the refresh lists, and whether
-- SetBoot and Reset succeed.
pub record Attempt : Type 0 where
  pub systems : Option (List Text)
  pub is_boot_set : Bool
  pub is_reset : Bool

-- What Power is told about a system.
pub record System : Type 0 where
  pub id : Text
  pub has_boot_options : Bool
  pub supported : List Text
  pub info : Option (List Parameter)
  pub is_reset : Bool
  pub attempt : ℕ → Attempt

-- one for each return of an error
pub data PowerError : Type 0 where
  query_failed no_system no_boot_options operation_failed : PowerError
  no_restart unknown_cmd : Text → PowerError
  refresh_failed nothing_listed : PowerError
  not_listed : Text → PowerError
  retries_exhausted : PowerError

-- the requests for a system: boot from PXE once, and reset
pub data Request : Type 0 where
  set_boot : Text → Request
  reset : Text → Text → Request

-- the refresh of a round after the first: its error
unfoldable pub refresh : Text → Option (List Text) → Option PowerError
refresh id none = some refresh_failed
refresh id (some []) = some nothing_listed
refresh id (some (s ∷ ss)) = if any (text_eq id) (s ∷ ss) then none else some (not_listed id)

unfoldable pub restart_type : Text → Text
restart_type types =
    if contains_text types graceful_restart then graceful_restart else force_restart

-- a round from SetBoot on; `rest` is what the rounds after it return
unfoldable pub boot_and_reset :
    Text → Text → Attempt → Option PowerError × List Request → Option PowerError × List Request
unfolding restart_type
boot_and_reset types id a rest =
    if not a.is_boot_set
    then (rest.0, set_boot id ∷ rest.1)
    else if not a.is_reset
    then (rest.0, set_boot id ∷ reset id (restart_type types) ∷ rest.1)
    else (none, set_boot id ∷ reset id (restart_type types) ∷ [])

-- the rounds from the i-th on, `left` of them
unfoldable pub rounds :
    Text → Text → (ℕ → Attempt) → (left : ℕ) → ℕ → Option PowerError × List Request
unfolding refresh boot_and_reset
rounds types id attempt zero i = (some retries_exhausted, [])
rounds types id attempt (suc left) i =
    let a = attempt i in
    let round = boot_and_reset types id a (rounds types id attempt left (i + 1)) in
    elim (if leb 1 i then refresh id a.systems else none) [ some e ↦ (some e, []) | none ↦ round ]

abbrev pub max_retries : ℕ
max_retries = 3

-- pxeRebootWithRetry
unfoldable pub pxe_reboot_with_retry :
    Text → Text → (ℕ → Attempt) → Option PowerError × List Request
unfolding rounds
pxe_reboot_with_retry types id attempt = rounds types id attempt max_retries 0

-- the switch of Power, for one system
unfoldable pub power_system : Text → System → Option PowerError × List Request
unfolding get_supported_reset_types pxe_reboot_with_retry
power_system cmd s =
    let types = get_supported_reset_types s.supported s.info in
    if not s.has_boot_options
    then (some no_boot_options, [])
    else if any (text_eq cmd) reset_cmds
    then (if s.is_reset then none else some operation_failed, reset s.id cmd ∷ [])
    else if not (text_eq cmd boot_cmd_reset_pxe_once)
    then (some (unknown_cmd cmd), [])
    else if not (contains_text types graceful_restart) && not (contains_text types force_restart)
    then (some (no_restart s.id), [])
    else pxe_reboot_with_retry types s.id s.attempt

-- the loop of Power, which ends at the first error
unfoldable pub power_all : Text → List System → Option PowerError × List Request
unfolding power_system
power_all cmd [] = (none, [])
power_all cmd (s ∷ ss) =
    let (e, rs) = power_system cmd s in
    let rest = power_all cmd ss in
    elim e [ some e' ↦ (some e', rs) | none ↦ (rest.0, rs ++ rest.1) ]

-- Power; `systems` is none where the query fails
unfoldable pub power : Text → Option (List System) → Option PowerError × List Request
unfolding power_all
power cmd none = (some query_failed, [])
power cmd (some []) = (some no_system, [])
power cmd (some (s ∷ ss)) = power_all cmd (s ∷ ss)
