-- ===== src/Lock/Race.antt =====
-- pkg/lock/lockByID.go: one lock for each name, if the calls do not overlap.
use topohub.Common.{
  ℕ, ◌+◌, ◌<◌, ◌≡◌, refl, ap, ◌∙◌, ◌≢◌, inl, inr, true, false, Option, none, some, List, [], ◌∷◌,
  arith, Bool-cases, is_some, Text, text_eq, text_eq_refl, text_eq_iff, lookup, insert,
  lookup-insert,
}
use topohub.Lock.{LockManager, empty_manager, look, make, get_after, get_lock}

-- every lock was made, and no two names have one
pub record IsSound (m : LockManager) : Type 0 where
  pub is_made : (j : Text) (l : ℕ) → lookup j m.locks ≡ some l → l < m.made
  pub apart : (i j : Text) (l : ℕ) → lookup i m.locks ≡ some l → lookup j m.locks ≡ some l → i ≡ j

-- after a call the name has the lock that was returned, and the other names have the locks they had
abbrev pub Gets : Text → LockManager → LockManager × ℕ → Type 0
Gets name m (m', l) =
    (lookup name m'.locks ≡ some l)
    × ((j : Text) → text_eq name j ≡ false → lookup j m'.locks ≡ lookup j m.locks)
    × (is_some (lookup name m.locks) ≡ true → m' ≡ m)

get_after-Gets :
    (name : Text) (o : Option ℕ) (m : LockManager)
    → lookup name m.locks ≡ o
    → Gets name m (get_after name o m)
unfolding get_after make
get_after-Gets name (some l) m e = (e, λ j n. refl, λ s. refl)
get_after-Gets name none m e = (
  rw (lookup-insert name name m.made m.locks, text_eq_refl name) refl,
  λ j n. rw (lookup-insert name j m.made m.locks, n) refl,
  λ s. cc (rw e at s),
)

empty_IsSound : IsSound empty_manager
unfolding lookup
empty_IsSound = record { is_made = λ j l e. cc; apart = λ i j l e f. cc }

make-IsSound : (name : Text) (m : LockManager) → IsSound m → IsSound (make name m).0
unfolding make
make-IsSound name m h = record {
  is_made = λ j l e. ground (arith, lookup-insert name j m.made m.locks, h.is_made j l);
  apart = λ i j l e f. ground (
    arith,
    lookup-insert name i m.made m.locks,
    lookup-insert name j m.made m.locks,
    text_eq_iff name i,
    text_eq_iff name j,
    h.is_made i l,
    h.is_made j l,
    h.apart i j l,
  );
}

get_lock-IsSound : (name : Text) (m : LockManager) → IsSound m → IsSound (get_lock name m).0
unfolding get_lock get_after
get_lock-IsSound name m h = after_look (look name m)
  where
    after_look : (o : Option ℕ) → IsSound (get_after name o m).0
    after_look none = make-IsSound name m h
    after_look (some l) = h

-- calls that do not overlap
pub calls : List Text → LockManager → LockManager
calls [] m = m
calls (name ∷ names) m = calls names (get_lock name m).0

calls-IsSound : (names : List Text) (m : LockManager) → IsSound m → IsSound (calls names m)
unfolding calls
calls-IsSound [] m h = h
calls-IsSound (n ∷ ns) m h = calls-IsSound ns (get_lock n m).0 (get_lock-IsSound n m h)

get_lock-Gets : (name : Text) (m : LockManager) → Gets name m (get_lock name m)
unfolding get_lock look
get_lock-Gets name m = get_after-Gets name (lookup name m.locks) m refl

-- a lock that is made stays the name's
get_lock_keeps :
    (n name : Text) (m : LockManager) (l : ℕ)
    → lookup name m.locks ≡ some l
    → lookup name (get_lock n m).0.locks ≡ some l
get_lock_keeps n name m l e = elim (Bool-cases (text_eq n name)) [
  | inl z ↦
      let same = (text_eq_iff n name).0 z in
      let stays : (get_lock n m).0 ≡ m =
        (get_lock-Gets n m).2 (rw (ap (λ (t : Text). lookup t m.locks) same ∙ e) refl) in
      rw stays e
  | inr z ↦ (get_lock-Gets n m).1 name z ∙ e
]

calls_keep :
    (names : List Text) (name : Text) (m : LockManager) (l : ℕ)
    → lookup name m.locks ≡ some l
    → lookup name (calls names m).locks ≡ some l
unfolding calls
calls_keep [] name m l e = e
calls_keep (n ∷ ns) name m l e = calls_keep ns name (get_lock n m).0 l (get_lock_keeps n name m l e)

get_lock-known :
    (name : Text) (m : LockManager) (l : ℕ) → lookup name m.locks ≡ some l → (get_lock name m).1 ≡ l
unfolding get_lock look get_after
get_lock-known name m l e = rw e refl

-- If the calls of GetLock do not overlap, a name gets the same lock in every call, and two names
-- never get the same one.
pub get_lock_same :
    (before between : List Text) (name other : Text)
    → let m = calls before empty_manager in
      let (m', l) = get_lock name m in
      ((get_lock name (calls between m')).1 ≡ l)
      × ((get_lock other (calls between m')).1 ≡ l → name ≡ other)
get_lock_same before between name other =
    let m = calls before empty_manager in
    let m' = calls between (get_lock name m).0 in
    let l = (get_lock name m).1 in
    let sound : IsSound (get_lock other m').0 =
      get_lock-IsSound other m' (
        calls-IsSound between _ (get_lock-IsSound name m (calls-IsSound before _ empty_IsSound))) in
    let known : lookup name m'.locks ≡ some l =
      calls_keep between name (get_lock name m).0 l (get_lock-Gets name m).0 in
    (
      get_lock-known name m' l known,
      λ e.
          sound.apart name other l (get_lock_keeps other name m' l known)
            ((get_lock-Gets other m').0 ∙ ap some e),
    )

-- Two calls for a name that has no lock yet, which both look before either stores: they return
-- different locks, and the map keeps the second.
pub get_lock_races :
    (name : Text) (m : LockManager)
    → lookup name m.locks ≡ none
    → let o = look name m in
      let (m1, l1) = get_after name o m in
      let (m2, l2) = get_after name o m1 in (l1 ≢ l2) × (lookup name m2.locks ≡ some l2)
unfolding look get_after make
get_lock_races name m e = rw e (
  ground arith,
  ground
      (arith, lookup-insert name name (m.made + 1) (insert name m.made m.locks), text_eq_refl name),
)
