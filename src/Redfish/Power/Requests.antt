-- ===== src/Redfish/Power/Requests.antt =====
-- pkg/redfish/power.go: which requests a command and the retried PXE boot send.
use topohub.Common.{
  ◌≡◌, refl, sym, ap, subst, ◌↔◌, Bool, true, false, not, ◌&&◌, Option, none, some, List, [], ◌∷◌,
  ◌++◌, map, arith, ◌==◌, if◌then◌else◌, length, any, all, Text, text_eq,
}
use topohub.Redfish.Power.{
  System, PowerError, Request, set_boot, reset, reset_cmds, power_system, power_all, power,
  no_boot_options, operation_failed,
}

-- Every reset of the requests is one of `id` of the type `type`, right after a request that sets its
-- boot target, and all of these are for `id`; `armed` is whether such a request went before.
abbrev pub is_paired : Text → Text → Bool → List Request → Bool
is_paired id type armed [] = true
is_paired id type armed (set_boot a ∷ rs) = text_eq a id && is_paired id type true rs
is_paired id type armed (reset a t ∷ rs) =
    armed && (text_eq a id && (text_eq t type && is_paired id type false rs))

-- the system lists its boot options and resets
abbrev pub obeys : System → Bool
obeys s = s.has_boot_options && s.is_reset

-- what a reset command does to one system
abbrev plain : Text → System → Option PowerError × List Request
plain cmd s =
    if not s.has_boot_options
    then (some no_boot_options, [])
    else (if s.is_reset then none else some operation_failed, reset s.id cmd ∷ [])

power_system-plain :
    (cmd : Text) (s : System)
    → any (text_eq cmd) reset_cmds ≡ true
    → power_system cmd s ≡ plain cmd s
unfolding power_system
power_system-plain cmd s h = rw h refl

-- the loop's result, from a system's and that of the rest
abbrev followed :
    Option PowerError × List Request
    → Option PowerError × List Request
    → Option PowerError × List Request
followed r rest = elim (r.0) [ some e ↦ (some e, r.1) | none ↦ (rest.0, r.1 ++ rest.1) ]

plain-followed :
    (cmd : Text) (s : System) (ss : List System) (rest : Option PowerError × List Request)
    → ((rest.0 ≡ none) ↔ (all obeys ss ≡ true))
    → ((followed (plain cmd s) rest).0 ≡ none) ↔ (all obeys (s ∷ ss) ≡ true)
plain-followed cmd s ss rest h = ground arith

followed-sent :
    (cmd : Text) (s : System) (ss : List System) (rest : Option PowerError × List Request)
    → (rest.0 ≡ none → rest.1 ≡ map (λ (t : System). reset t.id cmd) ss)
    → (followed (plain cmd s) rest).0 ≡ none
    → (followed (plain cmd s) rest).1 ≡ map (λ (t : System). reset t.id cmd) (s ∷ ss)
followed-sent cmd s ss rest h e = ground arith

module _ (cmd : Text) (is_plain : any (text_eq cmd) reset_cmds ≡ true) where
  power_all-cons :
      (s : System) (ss : List System)
      → power_all cmd (s ∷ ss) ≡ followed (plain cmd s) (power_all cmd ss)
  unfolding power_all
  power_all-cons s ss =
      ap (λ (r : Option PowerError × List Request). followed r (power_all cmd ss))
        (power_system-plain cmd s is_plain)

  power_all-none : (ss : List System) → ((power_all cmd ss).0 ≡ none) ↔ (all obeys ss ≡ true)
  unfolding power_all
  power_all-none [] = ground arith
  power_all-none (s ∷ ss) =
      subst (λ (r : Option PowerError × List Request). (r.0 ≡ none) ↔ (all obeys (s ∷ ss) ≡ true))
        (sym (power_all-cons s ss)) (plain-followed cmd s ss (power_all cmd ss) (power_all-none ss))

  power_all-sent :
      (ss : List System)
      → (power_all cmd ss).0 ≡ none
      → (power_all cmd ss).1 ≡ map (λ (t : System). reset t.id cmd) ss
  unfolding power_all
  power_all-sent [] = λ e. refl
  power_all-sent (s ∷ ss) =
      subst
        (λ (r : Option PowerError × List Request).
          r.0 ≡ none → r.1 ≡ map (λ (t : System). reset t.id cmd) (s ∷ ss))
        (sym (power_all-cons s ss)) (followed-sent cmd s ss (power_all cmd ss) (power_all-sent ss))

-- With a command that is a reset type itself, Power returns no error exactly if the BMC lists a
-- system, and every system lists its boot options and resets. Then each system got one reset, of that
-- type, in the order of the list, and nothing else was requested.
pub power_resets :
    (cmd : Text) (ss : List System)
    → any (text_eq cmd) reset_cmds ≡ true
    → (((power cmd (some ss)).0 ≡ none) ↔ ((not (length ss == 0) && all obeys ss) ≡ true))
      × ((power cmd (some ss)).0 ≡ none
          → (power cmd (some ss)).1 ≡ map (λ (s : System). reset s.id cmd) ss)
unfolding power
power_resets cmd [] h = (ground arith, λ e. cc)
power_resets cmd (s ∷ ss) h =
    ((ground (arith, power_all-none cmd h (s ∷ ss))), power_all-sent cmd h (s ∷ ss))
