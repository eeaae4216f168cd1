-- ===== src/Common/Texts.antt =====
-- Go strings as lists of bytes, for ASCII text, with the functions of package strings that the
-- program calls.
use Prim.Native.Nat.{ℕ, ◌+◌}
use Prim.Native.Char.{code}
use Prim.Native.String.{String}
use mathlib.Core.Path.{◌≡◌, refl}
use mathlib.Core.Logic.{◌↔◌}
use mathlib.Core.Bool.{Bool, true, false, ◌&&◌, ◌||◌}
use mathlib.Core.List.{List, [], ◌∷◌, map}
use native.Mathlib.Omega.{arith}
use topohub.Common.Tests.{leb, ◌==◌, if◌then◌else◌}

abbrev pub Text : Type 0
Text = List ℕ

-- The bytes of an ASCII literal.
abbrev pub codes : String → Text
codes String.[] = []
codes (String.◌∷◌ c s) = code c ∷ codes s

-- s == t
unfoldable pub text_eq : Text → Text → Bool
text_eq [] [] = true
text_eq [] (_ ∷ _) = false
text_eq (_ ∷ _) [] = false
text_eq (a ∷ s) (b ∷ t) = a == b && text_eq s t

pub text_eq_refl : (s : Text) → text_eq s s ≡ true
unfolding text_eq
text_eq_refl [] = refl
text_eq_refl (a ∷ s) = ground (arith, text_eq_refl s)

eq_of_text_eq : (s t : Text) → text_eq s t ≡ true → s ≡ t
unfolding text_eq
eq_of_text_eq [] [] h = refl
eq_of_text_eq [] (_ ∷ _) h = cc
eq_of_text_eq (_ ∷ _) [] h = cc
eq_of_text_eq (a ∷ s) (b ∷ t) h = ground (arith, eq_of_text_eq s t)

pub text_eq_iff : (s t : Text) → (text_eq s t ≡ true) ↔ (s ≡ t)
text_eq_iff s t = (eq_of_text_eq s t, λ e. rw e (text_eq_refl t))

-- len(s) == 0
abbrev pub is_empty : Text → Bool
is_empty [] = true
is_empty (_ ∷ _) = false

-- strings.ContainsRune(s, c), for a single byte
unfoldable pub contains : ℕ → Text → Bool
contains c [] = false
contains c (a ∷ s) = a == c || contains c s

abbrev pub add_head : ℕ → List Text → List Text
add_head a [] = (a ∷ []) ∷ []
add_head a (w ∷ ws) = (a ∷ w) ∷ ws

-- strings.Split(s, c), for a separator of a single byte; never empty
unfoldable pub split : ℕ → Text → List Text
split c [] = [] ∷ []
split c (a ∷ s) = let rest = split c s in if a == c then [] ∷ rest else add_head a rest

-- unicode.IsSpace on ASCII
abbrev pub is_space : ℕ → Bool
is_space a = a == 32 || (leb 9 a && leb a 13)

unfoldable pub trim_left : Text → Text
trim_left [] = []
trim_left (a ∷ s) = let rest = trim_left s in if is_space a then rest else a ∷ s

unfoldable pub trim_right : Text → Text
trim_right [] = []
trim_right (a ∷ s) = let rest = trim_right s in if is_empty rest && is_space a then [] else a ∷ rest

-- strings.TrimSpace
unfoldable pub trim_space : Text → Text
unfolding trim_left trim_right
trim_space s = trim_right (trim_left s)

-- strings.ReplaceAll(s, from, to), for single bytes
unfoldable pub replace_all : ℕ → ℕ → Text → Text
replace_all from to = map λ a. if a == from then to else a

-- the case folding of an ASCII letter
abbrev pub to_lower : ℕ → ℕ
to_lower a = if leb b'A' a && leb a b'Z' then a + 32 else a

-- strings.EqualFold
unfoldable pub equal_fold : Text → Text → Bool
unfolding text_eq
equal_fold s t = text_eq (map to_lower s) (map to_lower t)

pub equal_fold_iff : (s t : Text) → (equal_fold s t ≡ true) ↔ (map to_lower s ≡ map to_lower t)
unfolding equal_fold
equal_fold_iff s t = text_eq_iff (map to_lower s) (map to_lower t)
