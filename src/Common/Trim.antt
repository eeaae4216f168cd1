-- ===== src/Common/Trim.antt =====
-- How strings.TrimSpace and strings.Split meet: cutting a trimmed text and trimming the parts gives
-- what cutting the text itself gives.
use mathlib.Core.Path.{◌≡◌, refl, sym, ap, ap₂, ◌∙◌}
use mathlib.Core.Logic.{inl, inr, ◌⊎◌}
use mathlib.Core.Bool.{true, false}
use mathlib.Core.List.{List, [], ◌∷◌, map}
use Prim.Native.Nat.{ℕ}
use native.Mathlib.Omega.{arith}
use topohub.Common.Tests.{◌==◌, Bool-cases}
use topohub.Common.Texts.{
  Text, contains, split, add_head, is_space, trim_left, trim_right, trim_space,
}

trim_right_blank :
    (a : ℕ) (s : Text) → trim_right s ≡ [] → is_space a ≡ true → trim_right (a ∷ s) ≡ []
unfolding trim_right
trim_right_blank a s e h = rw (e, h)

trim_right_cons : (a : ℕ) (s : Text) → is_space a ≡ false → trim_right (a ∷ s) ≡ a ∷ trim_right s
unfolding trim_right
trim_right_cons a s h = ground arith

trim_right_cong :
    (a : ℕ) (s t : Text) → trim_right s ≡ trim_right t → trim_right (a ∷ s) ≡ trim_right (a ∷ t)
unfolding trim_right
trim_right_cong a s t e = rw e

trim_left_space : (a : ℕ) (s : Text) → is_space a ≡ true → trim_left (a ∷ s) ≡ trim_left s
unfolding trim_left
trim_left_space a s h = rw h

trim_left_other : (a : ℕ) (s : Text) → is_space a ≡ false → trim_left (a ∷ s) ≡ a ∷ s
unfolding trim_left
trim_left_other a s h = rw h

-- What `trim_right` leaves of a text that starts with a blank.
trim_right_space :
    (a : ℕ) (s : Text)
    → is_space a ≡ true
    → (trim_right s ≡ []) × (trim_right (a ∷ s) ≡ []) ⊎ (trim_right (a ∷ s) ≡ a ∷ trim_right s)
unfolding trim_right
trim_right_space a s h = ground arith

trim_comm : (s : Text) → trim_right (trim_left s) ≡ trim_left (trim_right s)
trim_comm [] = unfold trim_left trim_right in refl
trim_comm (a ∷ s) = elim (Bool-cases (is_space a)) [
  | inl h ↦ elim (trim_right_space a s h) [
    | inl p ↦ rw (trim_left_space a s h, p.1, trim_comm s, p.0) refl
    | inr e ↦ rw (trim_left_space a s h, e, trim_left_space a (trim_right s) h) (trim_comm s)
  ]
  | inr h ↦ rw (trim_left_other a s h, trim_right_cons a s h, trim_left_other a (trim_right s) h)
]

trim_left_idem : (s : Text) → trim_left (trim_left s) ≡ trim_left s
unfolding trim_left
trim_left_idem [] = refl
trim_left_idem (a ∷ s) = ground (arith, trim_left_idem s)

trim_right_idem : (s : Text) → trim_right (trim_right s) ≡ trim_right s
unfolding trim_right
trim_right_idem [] = refl
trim_right_idem (a ∷ s) = ground (arith, trim_right_idem s)

pub trim_space_idem : (s : Text) → trim_space (trim_space s) ≡ trim_space s
unfolding trim_space
trim_space_idem s = rw (← trim_comm (trim_left s), trim_left_idem s) (trim_right_idem (trim_left s))

split-cons : (c : ℕ) (s : Text) → (w : Text) × (ws : List Text) × (split c s ≡ w ∷ ws)
unfolding split
split-cons c [] = ([], [], refl)
split-cons c (a ∷ s) = elim (Bool-cases (a == c)) [
  | inl e ↦ ([], split c s, rw e refl)
  | inr e ↦ let (w, ws, h) = split-cons c s in (a ∷ w, ws, rw (e, h) refl)
]

split_at : (c a : ℕ) (s : Text) → (a == c) ≡ true → split c (a ∷ s) ≡ [] ∷ split c s
unfolding split
split_at c a s e = rw e

split_past : (c a : ℕ) (s : Text) → (a == c) ≡ false → split c (a ∷ s) ≡ add_head a (split c s)
unfolding split
split_past c a s e = rw e

trim_space_space : (a : ℕ) (s : Text) → is_space a ≡ true → trim_space (a ∷ s) ≡ trim_space s
unfolding trim_space
trim_space_space a s h = ap trim_right (trim_left_space a s h)

-- Blanks in front of the first part.
split-trim_left :
    (c : ℕ) (s : Text)
    → is_space c ≡ false
    → map trim_space (split c (trim_left s)) ≡ map trim_space (split c s)
split-trim_left c [] h = unfold trim_left in refl
split-trim_left c (a ∷ s) h = elim (Bool-cases (is_space a)) [
  | inl b ↦
      let (w, ws, e) = split-cons c s in
      rw (trim_left_space a s b, split_past c a s (ground arith), e)
        (rw (trim_space_space a w b) (split-trim_left c s h ∙ ap (map trim_space) e))
  | inr b ↦ rw (trim_left_other a s b)
]

add_head_cong :
    (a : ℕ) (us vs : List Text) (u v : Text) (us' vs' : List Text)
    → us ≡ u ∷ us'
    → vs ≡ v ∷ vs'
    → map trim_right us ≡ map trim_right vs
    → map trim_right (add_head a us) ≡ map trim_right (add_head a vs)
add_head_cong a us vs u v us' vs' p q e = rw (p, q) (ap₂ ◌∷◌ (trim_right_cong a u v (cc f)) (cc f))
  where
    f : trim_right u ∷ map trim_right us' ≡ trim_right v ∷ map trim_right vs'
    f = sym (ap (map trim_right) p) ∙ e ∙ ap (map trim_right) q

-- The first character of a part is no separator.
add_head-split :
    (c a : ℕ) (s t : Text)
    → map trim_right (split c s) ≡ map trim_right (split c t)
    → map trim_right (add_head a (split c s)) ≡ map trim_right (add_head a (split c t))
add_head-split c a s t e =
    let (u, us, p) = split-cons c s in
    let (v, vs, q) = split-cons c t in add_head_cong a (split c s) (split c t) u v us vs p q e

add_head_blank :
    (a : ℕ) (vs : List Text) (v : Text) (vs' : List Text)
    → is_space a ≡ true
    → vs ≡ v ∷ vs'
    → [] ∷ [] ≡ map trim_right vs
    → [] ∷ [] ≡ map trim_right (add_head a vs)
add_head_blank a vs v vs' b q e = rw q (ap₂ ◌∷◌ (sym (trim_right_blank a v (sym (cc f)) b)) (cc f))
  where
    f : ◌≡◌ {A = List Text} ([] ∷ []) (trim_right v ∷ map trim_right vs')
    f = e ∙ ap (map trim_right) q

split_nil : (c : ℕ) → map trim_right (split c []) ≡ [] ∷ []
unfolding split trim_right
split_nil c = refl

split_blank :
    (c a : ℕ) (s : Text)
    → (a == c) ≡ false
    → is_space a ≡ true
    → trim_right s ≡ []
    → trim_right (a ∷ s) ≡ []
    → map trim_right (split c (trim_right s)) ≡ map trim_right (split c s)
    → map trim_right (split c (trim_right (a ∷ s))) ≡ map trim_right (split c (a ∷ s))
split_blank c a s e b p q ih =
    let (v, vs, k) = split-cons c s in
    let from_nil = rw p at ih in
    rw (q, split_past c a s e)
      (split_nil c ∙ add_head_blank a (split c s) v vs b k (sym (split_nil c) ∙ from_nil))

-- Blanks behind the last part.
split-trim_right :
    (c : ℕ) (s : Text)
    → is_space c ≡ false
    → map trim_right (split c (trim_right s)) ≡ map trim_right (split c s)
split-trim_right c [] h = unfold trim_right in refl
split-trim_right c (a ∷ s) h = elim (Bool-cases (a == c)) [
  | inl e ↦
      rw (trim_right_cons a s (ground arith), split_at c a (trim_right s) e, split_at c a s e)
        (ap (◌∷◌ (trim_right [])) (split-trim_right c s h))
  | inr e ↦ elim (Bool-cases (is_space a)) [
    | inl b ↦ elim (trim_right_space a s b) [
      | inl p ↦ split_blank c a s e b p.0 p.1 (split-trim_right c s h)
      | inr q ↦
          rw (q, split_past c a (trim_right s) e, split_past c a s e)
            (add_head-split c a (trim_right s) s (split-trim_right c s h))
    ]
    | inr b ↦
        rw (trim_right_cons a s b, split_past c a (trim_right s) e, split_past c a s e)
          (add_head-split c a (trim_right s) s (split-trim_right c s h))
  ]
]

map-trim_space : (ws : List Text) → map trim_space ws ≡ map trim_left (map trim_right ws)
unfolding trim_space
map-trim_space [] = refl
map-trim_space (w ∷ ws) = ap₂ ◌∷◌ (trim_comm w) (map-trim_space ws)

pub split-trim_space :
    (c : ℕ) (s : Text)
    → is_space c ≡ false
    → map trim_space (split c (trim_space s)) ≡ map trim_space (split c s)
unfolding trim_space
split-trim_space c s h =
    map-trim_space (split c (trim_space s))
    ∙ ap (map trim_left) (split-trim_right c (trim_left s) h)
    ∙ sym (map-trim_space (split c (trim_left s)))
    ∙ split-trim_left c s h

contains-trim_left :
    (c : ℕ) (s : Text) → is_space c ≡ false → contains c (trim_left s) ≡ contains c s
unfolding contains trim_left
contains-trim_left c [] h = refl
contains-trim_left c (a ∷ s) h = ground (arith, contains-trim_left c s h)

contains-trim_right :
    (c : ℕ) (s : Text) → is_space c ≡ false → contains c (trim_right s) ≡ contains c s
unfolding contains trim_right
contains-trim_right c [] h = refl
contains-trim_right c (a ∷ s) h = ground (arith, contains-trim_right c s h)

pub contains-trim_space :
    (c : ℕ) (s : Text) → is_space c ≡ false → contains c (trim_space s) ≡ contains c s
unfolding trim_space
contains-trim_space c s h = contains-trim_right c (trim_left s) h ∙ contains-trim_left c s h
