-- ===== src/Redfish/Power/Retry.antt =====
-- pkg/redfish/power.go: when the retried PXE boot and a command succeed, and what is requested.
use topohub.Common.{
  ℕ, zero, suc, ◌+◌, ◌<◌, ◌≡◌, refl, ◌↔◌, ◌⊎◌, inl, inr, Bool, true, not, ◌&&◌, ◌||◌, Option, none,
  some, List, [], ◌∷◌, arith, leb, if◌then◌else◌, Bool-cases, any, Text, text_eq,
}
use topohub.Redfish.Power.{
  Attempt, PowerError, Request, refresh, boot_and_reset, rounds, max_retries, pxe_reboot_with_retry,
}

-- the system is found in the i-th round, which refreshes the list but for the first
abbrev pub is_listed : Text → (ℕ → Attempt) → ℕ → Bool
is_listed id attempt i = elim ((attempt i).systems) [
  | none ↦ not (leb 1 i)
  | some ids ↦ not (leb 1 i) || any (text_eq id) ids
]

-- the k-th round from the i-th on sets the boot target and resets, and the system is found until then
abbrev pub Succeeds : Text → (ℕ → Attempt) → ℕ → ℕ → Type 0
Succeeds id attempt i zero =
    (is_listed id attempt i ≡ true)
    × ((attempt i).is_boot_set ≡ true)
    × ((attempt i).is_reset ≡ true)
Succeeds id attempt i (suc k) = (is_listed id attempt i ≡ true) × Succeeds id attempt (i + 1) k

listed_refresh :
    (id : Text) (b : Bool) (o : Option (List Text))
    → ((elim o [ none ↦ not b | some ids ↦ not b || any (text_eq id) ids ]) ≡ true)
      ↔ ((if b then refresh id o else none) ≡ none)
unfolding refresh
listed_refresh id b none = ground arith
listed_refresh id b (some []) = ground arith
listed_refresh id b (some (x ∷ xs)) = ground arith

-- a round, given the error of its refresh and what the later rounds return
abbrev round :
    Text
    → Text
    → Option PowerError
    → Attempt
    → Option PowerError × List Request
    → Option PowerError × List Request
round types id refreshed a rest = elim refreshed [
  | some e ↦ (some e, [])
  | none ↦ boot_and_reset types id a rest
]

round-none :
    (types id : Text) (r : Option PowerError) (a : Attempt)
    (rest : Option PowerError × List Request)
    → (round types id r a rest).0 ≡ none
    → (r ≡ none) × (((a.is_boot_set ≡ true) × (a.is_reset ≡ true)) ⊎ (rest.0 ≡ none))
unfolding boot_and_reset
round-none types id (some e) a rest h = cc
round-none types id none a rest h = (
  refl,
  elim (Bool-cases (a.is_boot_set && a.is_reset)) [
    | inl z ↦ inl (ground arith)
    | inr z ↦ inr (ground arith)
  ],
)

none-round :
    (types id : Text) (r : Option PowerError) (a : Attempt)
    (rest : Option PowerError × List Request)
    → r ≡ none
    → ((a.is_boot_set ≡ true) × (a.is_reset ≡ true)) ⊎ (rest.0 ≡ none)
    → (round types id r a rest).0 ≡ none
unfolding boot_and_reset
none-round types id (some e) a rest r h = cc
none-round types id none a rest r (inl (set, done)) = rw (set, done) refl
none-round types id none a rest r (inr e) = ground arith

module _ (types id : Text) (attempt : ℕ → Attempt) where
  refreshed : ℕ → Option PowerError
  refreshed i = if leb 1 i then refresh id (attempt i).systems else none

  listed-refreshed : (i : ℕ) → (is_listed id attempt i ≡ true) ↔ (refreshed i ≡ none)
  unfolding refreshed
  listed-refreshed i = listed_refresh id (leb 1 i) (attempt i).systems

  rounds-Succeeds :
      (left i : ℕ)
      → (rounds types id attempt left i).0 ≡ none
      → (k : ℕ) × (k < left) × Succeeds id attempt i k
  unfolding rounds refreshed
  rounds-Succeeds zero i e = cc
  rounds-Succeeds (suc left) i e =
      let (listed, or) =
        round-none types id (refreshed i) (attempt i) (rounds types id attempt left (i + 1)) e in
      elim or [
        | inl done ↦ (0, omega arith, ((listed-refreshed i).1 listed, done.0, done.1))
        | inr rest ↦
            let (k, l, s) = rounds-Succeeds left (i + 1) rest in
            (suc k, omega arith, ((listed-refreshed i).1 listed, s))
      ]

  Succeeds-rounds :
      (left i k : ℕ)
      → k < left
      → Succeeds id attempt i k
      → (rounds types id attempt left i).0 ≡ none
  unfolding rounds refreshed
  Succeeds-rounds zero i k l s = absurd (omega arith)
  Succeeds-rounds (suc left) i zero l s =
      none-round types id (refreshed i) (attempt i) (rounds types id attempt left (i + 1))
        ((listed-refreshed i).0 s.0) (inl (s.1, s.2))
  Succeeds-rounds (suc left) i (suc k) l s =
      none-round types id (refreshed i) (attempt i) (rounds types id attempt left (i + 1))
        ((listed-refreshed i).0 s.0) (inr (Succeeds-rounds left (i + 1) k (omega arith) s.1))

-- pxeRebootWithRetry returns no error exactly if, in one of three rounds, the boot target is set and
-- the system resets, and until then every refresh of the list succeeds and has the system.
pub pxe_reboot_with_retry-Succeeds :
    (types id : Text) (attempt : ℕ → Attempt)
    → ((pxe_reboot_with_retry types id attempt).0 ≡ none)
      ↔ ((k : ℕ) × (k < max_retries) × Succeeds id attempt 0 k)
unfolding pxe_reboot_with_retry
pxe_reboot_with_retry-Succeeds types id attempt = (
  rounds-Succeeds types id attempt max_retries 0,
  λ (k, l, s). Succeeds-rounds types id attempt max_retries 0 k l s,
)
