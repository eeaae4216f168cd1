-- ===== src/Common/Included.antt =====
-- Whether a Go map of texts has all entries of another, by a loop over its entries, and its lemmas.
use topohub.Common.{
  ◌+◌, ◌≤◌, ◌≡◌, refl, sym, ap, subst, ◌∙◌, ◌↔◌, inl, inr, Bool, true, false, ◌&&◌, Option, none,
  some, [], ◌∷◌, arith, ◌==◌, Bool-cases, Option-cases, is_some, length, Text, text_eq,
  text_eq_refl, text_eq_iff, Map, lookup, delete, is_distinct, lookup-delete,
}

-- `for k, v1 := range a { if v2, ok := b[k]; !ok || v1 != v2 { return false } }`
unfoldable pub is_included : Map Text → Map Text → Bool
is_included [] b = true
is_included ((k, v) ∷ a) b =
    (elim (lookup k b) [ none ↦ false | some w ↦ text_eq v w ]) && is_included a b

-- two maps have the same entries
abbrev pub SameEntries : Map Text → Map Text → Type 0
SameEntries a b = (k : Text) → lookup k a ≡ lookup k b

entry_eq :
    (w : Text) (o : Option Text)
    → (elim o [ none ↦ false | some x ↦ text_eq w x ]) ≡ true
    → o ≡ some w
entry_eq w none h = cc
entry_eq w (some x) h = ap some (sym ((text_eq_iff w x).0 h))

pub is_included-lookup :
    (a b : Map Text) (k : Text) {v : Text}
    → is_included a b ≡ true
    → lookup k a ≡ some v
    → lookup k b ≡ some v
unfolding is_included lookup
is_included-lookup [] b k h e = cc
is_included-lookup ((j, w) ∷ a) b k {v = v} h e =
    ground (arith, text_eq_iff j k, entry_eq w (lookup j b), is_included-lookup a b k {v = v})

-- every entry of a is an entry of b
abbrev pub Included : Map Text → Map Text → Type 0
Included a b = (k v : Text) → lookup k a ≡ some v → lookup k b ≡ some v

tail-Included :
    (j w : Text) (a b : Map Text)
    → is_distinct ((j, w) ∷ a) ≡ true
    → Included ((j, w) ∷ a) b
    → Included a b
unfolding lookup
tail-Included j w a b d h k v e = ground (arith, text_eq_iff j k, h k v)

pub Included-is_included :
    (a b : Map Text) → is_distinct a ≡ true → Included a b → is_included a b ≡ true
unfolding is_included lookup
Included-is_included [] b d h = refl
Included-is_included ((j, w) ∷ a) b d h = ground (
  arith,
  h j w,
  text_eq_refl j,
  text_eq_refl w,
  Included-is_included a b (ground arith) (tail-Included j w a b d h),
)

length-delete-none : (j : Text) (b : Map Text) → lookup j b ≡ none → length (delete j b) ≡ length b
unfolding lookup delete
length-delete-none j [] e = refl
length-delete-none j ((k, v) ∷ b) e = ground (arith, length-delete-none j b)

pub length-delete :
    (j : Text) (b : Map Text)
    → is_distinct b ≡ true
    → is_some (lookup j b) ≡ true
    → length (delete j b) + 1 ≡ length b
unfolding lookup delete
length-delete j [] d e = cc
length-delete j ((k, v) ∷ b) d e =
    ground (arith, length-delete j b, length-delete-none j b, text_eq_iff k j)

delete-is_distinct :
    (j : Text) (b : Map Text) → is_distinct b ≡ true → is_distinct (delete j b) ≡ true
unfolding delete
delete-is_distinct j [] d = refl
delete-is_distinct j ((k, v) ∷ b) d = ground (arith, delete-is_distinct j b, lookup-delete j k b)

found_of_Included :
    (j w : Text) (a b : Map Text) → Included ((j, w) ∷ a) b → is_some (lookup j b) ≡ true
unfolding lookup
found_of_Included j w a b h = ground (arith, h j w, text_eq_refl j)

pub removed :
    (j w : Text) (a b : Map Text)
    → is_distinct ((j, w) ∷ a) ≡ true
    → Included ((j, w) ∷ a) b
    → Included a (delete j b)
unfolding lookup
removed j w a b d h k v e =
    ground (arith, lookup-delete j k b, text_eq_iff j k, tail-Included j w a b d h k v)

pub length_le :
    (a b : Map Text)
    → is_distinct a ≡ true
    → is_distinct b ≡ true
    → Included a b
    → length a ≤ length b
length_le [] b d d' h = omega arith
length_le ((j, w) ∷ a) b d d' h =
    let rest : Included a (delete j b) = removed j w a b d h in
    ground (
      arith,
      length_le a (delete j b) (ground arith) (delete-is_distinct j b d') rest,
      length-delete j b d',
      found_of_Included j w a b h,
    )

pub is_some_key :
    (j k : Text) (a : Map Text)
    → is_some (lookup j a) ≡ true
    → lookup k a ≡ none
    → text_eq j k ≡ false
is_some_key j k a h e = elim (Bool-cases (text_eq j k)) [
  | inl z ↦ cc (subst (λ t. is_some (lookup t a) ≡ true) ((text_eq_iff j k).0 z) h)
  | inr z ↦ z
]

is_some_key_flip :
    (k j : Text) (a : Map Text)
    → lookup k a ≡ none
    → is_some (lookup j a) ≡ true
    → text_eq k j ≡ false
is_some_key_flip k j a e h = ground (arith, is_some_key j k a, text_eq_iff k j, text_eq_iff j k)

-- a map of the same size with all entries of another has no key that the other lacks
no_other_key :
    (a b : Map Text) (k : Text)
    → is_distinct a ≡ true
    → is_distinct b ≡ true
    → length a ≡ length b
    → Included a b
    → lookup k a ≡ none
    → lookup k b ≡ none
no_other_key a b k d d' l h e = elim (Option-cases (lookup k b)) [
  | inl z ↦ z
  | inr (v, z) ↦
      let inside : Included a (delete k b) =
        λ j w f. rw (lookup-delete k j b, is_some_key_flip k j a e (rw f refl)) (h j w f) in
      absurd (
        omega (
          arith,
          l,
          length_le a (delete k b) d (delete-is_distinct k b d') inside,
          length-delete k b d' (rw z refl),
        ))
]

sized-lookup :
    (a b : Map Text) (k : Text)
    → is_distinct a ≡ true
    → is_distinct b ≡ true
    → length a ≡ length b
    → is_included a b ≡ true
    → lookup k a ≡ lookup k b
sized-lookup a b k d d' l h =
    let inside : Included a b = λ j v e. is_included-lookup a b j h e in
    elim (Option-cases (lookup k a)) [
      | inl z ↦ rw (z, no_other_key a b k d d' l inside z) refl
      | inr (v, z) ↦ rw (z, inside k v z) refl
    ]

-- Maps of the same size, one of which has all entries of the other, have the same entries.
pub sized-SameEntries :
    (a b : Map Text)
    → is_distinct a ≡ true
    → is_distinct b ≡ true
    → ((length a == length b && is_included a b) ≡ true) ↔ SameEntries a b
sized-SameEntries a b d d' = (
  λ h k. sized-lookup a b k d d' (ground arith) (ground arith),
  λ h.
      let inside : Included a b = λ k v e. sym (h k) ∙ e in
      let around : Included b a = λ k v e. h k ∙ e in
      let e = Included-is_included a b d inside in
      ground (arith, length_le a b d d' inside, length_le b a d' d around, e),
)
