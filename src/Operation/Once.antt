-- ===== src/Operation/Once.antt =====
-- pkg/hostoperation/controller.go: how often an operation acts on its host.
use topohub.Common.{
  ℕ, zero, suc, ◌+◌, ◌≤◌, ◌≡◌, refl, ◌∙◌, inl, inr, Bool, true, false, ◌||◌, Option, none, some,
  List, [], ◌∷◌, ◌++◌, arith, if◌then◌else◌, Bool-cases, Option-cases, replicate, any, all, Text,
  codes, text_eq, is_empty,
}
use topohub.Api.{RedfishStatus}
use topohub.Operation.{
  HostOperation, Answers, HostReply, Request, power, update_status, is_open, operate, closed_status,
  closed, reconcile_found, reconcile, found, no_connection, power_failed, powered, actions,
}

-- the power actions among the requests
unfoldable pub powers : List Request → ℕ
powers [] = 0
powers (power action ∷ rs) = powers rs + 1
powers (update_status op ∷ rs) = powers rs

-- the object that the server has after the requests, if it stores what it is asked to
unfoldable pub after : Bool → HostOperation → List Request → HostOperation
after is_stored op [] = op
after is_stored op (power action ∷ rs) = after is_stored op rs
after is_stored op (update_status new ∷ rs) = after is_stored (if is_stored then new else op) rs

-- the number of power actions of a run of reconciliations of one object, each of them of the object
-- that the server has then
unfoldable pub total_powers : List Answers → HostOperation → ℕ
total_powers [] op = 0
total_powers (a ∷ rest) op =
    powers (reconcile a (found op)).1
    + total_powers rest (after a.is_stored op (reconcile a (found op)).1)

closed_not_open :
    (a : Answers) (r : RedfishStatus) (op : HostOperation) → is_open (closed a r op) ≡ false
unfolding is_open closed closed_status text_eq
closed_not_open a r op = by_result (operate op.spec.action a.reply).0
  where
    by_result :
        (f : Option Text)
        → (is_empty (closed_status a r f op.status.message).status
            || text_eq (closed_status a r f op.status.message).status (codes "pending"))
          ≡ false
    by_result none = refl
    by_result (some x) = refl

quiet : (a : Answers) (op : HostOperation) → is_open op ≡ false → (reconcile a (found op)).1 ≡ []
unfolding reconcile reconcile_found
quiet a op h = elim (Option-cases a.redfish_status) [
  | inl z ↦ ground arith
  | inr (r, z) ↦ ground arith
]

-- An operation that is done or has failed acts no more.
closed_rests :
    (rest : List Answers) (op : HostOperation) → is_open op ≡ false → total_powers rest op ≡ 0
unfolding total_powers powers after
closed_rests [] op h = refl
closed_rests (a ∷ rest) op h = rw (quiet a op h) (omega (arith, closed_rests rest op h))

operate-powers : (action : Text) (r : HostReply) → powers (operate action r).1 ≤ 1
unfolding powers operate
operate-powers action (no_connection m) = omega arith
operate-powers action (power_failed m) = ground arith
operate-powers action powered = ground arith

powers-append : (xs ys : List Request) → powers (xs ++ ys) ≡ powers xs + powers ys
unfolding powers
powers-append [] ys = omega arith
powers-append (power action ∷ xs) ys = omega (arith, powers-append xs ys)
powers-append (update_status op ∷ xs) ys = powers-append xs ys

after-operate :
    (action : Text) (r : HostReply) (op new : HostOperation)
    → after true op ((operate action r).1 ++ (update_status new ∷ [])) ≡ new
unfolding after operate
after-operate action (no_connection m) op new = refl
after-operate action (power_failed m) op new = ground arith
after-operate action powered op new = ground arith

acting :
    (a : Answers) (rest : List Answers) (op : HostOperation) (r : RedfishStatus) (b : Bool)
    → b ≡ true
    → powers ((operate op.spec.action a.reply).1 ++ (update_status (closed a r op) ∷ []))
        + total_powers rest (
            after b op ((operate op.spec.action a.reply).1 ++ (update_status (closed a r op) ∷ [])))
      ≤ 1
acting a rest op r false h = cc
acting a rest op r true h = rw (after-operate op.spec.action a.reply op (closed a r op)) (
    omega (
      arith,
      closed_rests rest (closed a r op) (closed_not_open a r op),
      operate-powers op.spec.action a.reply,
      powers-append (operate op.spec.action a.reply).1 (update_status (closed a r op) ∷ []),
      one_update,
    ))
  where
    one_update : powers (update_status (closed a r op) ∷ []) ≡ 0
    one_update = unfold powers in refl

resting :
    (rest : List Answers) (op : HostOperation) (b : Bool)
    → total_powers rest op ≤ 1
    → powers [] + total_powers rest (after b op []) ≤ 1
unfolding powers after
resting rest op b ih = omega (arith, ih)

once_found :
    (a : Answers) (rest : List Answers) (op : HostOperation) (o : Option RedfishStatus)
    → a.is_stored ≡ true
    → total_powers rest op ≤ 1
    → powers (reconcile_found a o op).1
        + total_powers rest (after a.is_stored op (reconcile_found a o op).1)
      ≤ 1
unfolding reconcile_found
once_found a rest op none h ih = resting rest op a.is_stored ih
once_found a rest op (some r) h ih = elim (Bool-cases (is_open op)) [
  | inr z ↦ rw z (resting rest op a.is_stored ih)
  | inl z ↦ elim (Bool-cases a.is_cached) [
    | inr y ↦ rw (z, y) (resting rest op a.is_stored ih)
    | inl y ↦ rw (z, y) (acting a rest op r a.is_stored h)
  ]
]

-- If the server stores the status each time, then a run of any number of reconciliations of a
-- HostOperation acts on the host at most once, whatever else the surroundings answer.
pub total_powers_once :
    (answers : List Answers) (op : HostOperation)
    → all (λ a. a.is_stored) answers ≡ true
    → total_powers answers op ≤ 1
unfolding total_powers reconcile
total_powers_once [] op h = omega arith
total_powers_once (a ∷ rest) op h =
    once_found a rest op a.redfish_status (ground arith) (total_powers_once rest op (ground arith))

acts :
    (a : Answers) (op : HostOperation) (r : RedfishStatus)
    → a.redfish_status ≡ some r
    → a.is_cached ≡ true
    → a.reply ≡ powered
    → is_open op ≡ true
    → any (text_eq op.spec.action) actions ≡ true
    → (reconcile a (found op)).1 ≡ power op.spec.action ∷ update_status (closed a r op) ∷ []
unfolding reconcile reconcile_found operate
acts a op r e c p o k = rw (e, p) (rw (o, c, k) refl)

unstored :
    (action : Text) (op new : HostOperation) (rest : List Answers) (b : Bool)
    → b ≡ false
    → powers (power action ∷ update_status new ∷ [])
        + total_powers rest (after b op (power action ∷ update_status new ∷ []))
      ≡ 1 + total_powers rest op
unfolding powers after
unstored action op new rest true h = cc
unstored action op new rest false h = omega arith

-- While the server stores no status, every reconciliation of an open HostOperation with a known
-- action, on a host that is known and answers, acts on the host again.
pub total_powers-unstored :
    (n : ℕ) (a : Answers) (r : RedfishStatus) (op : HostOperation)
    → a.redfish_status ≡ some r
    → a.is_cached ≡ true
    → a.reply ≡ powered
    → a.is_stored ≡ false
    → is_open op ≡ true
    → any (text_eq op.spec.action) actions ≡ true
    → total_powers (replicate n a) op ≡ n
unfolding total_powers
total_powers-unstored zero a r op e c p s o k = refl
total_powers-unstored (suc n) a r op e c p s o k = rw (acts a op r e c p o k) (
    unstored op.spec.action op (closed a r op) (replicate n a) a.is_stored s
    ∙ omega (arith, total_powers-unstored n a r op e c p s o k))
