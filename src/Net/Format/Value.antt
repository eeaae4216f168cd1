-- ===== src/Net/Format/Value.antt =====
-- The digits that are written for a number stand for it: there are enough of them.
use topohub.Common.{
  ℕ, zero, suc, ◌+◌, ◌-◌, ◌*◌, ◌/◌, ◌%◌, ◌≤◌, ◌<◌, ◌≡◌, refl, inl, inr, true, [], ◌∷◌, ◌++◌, arith,
  ltb, Bool-cases, Text,
}
use topohub.Net.Format.{digits, format_nat}

-- the number that digits stand for, after those of `n`
abbrev pub value : ℕ → Text → ℕ
value n [] = n
value n (c ∷ s) = value (n * 10 + (c - b'0')) s

value-append : (n : ℕ) (s : Text) (c : ℕ) → value n (s ++ c ∷ []) ≡ value n s * 10 + (c - b'0')
value-append n [] c = refl
value-append n (d ∷ s) c = value-append (n * 10 + (d - b'0')) s c

below : (m n : ℕ) → n < m → ltb n m ≡ true
below m n h = ground arith

value-digits : (fuel n : ℕ) → n ≤ fuel → value 0 (digits (suc fuel) n) ≡ n
unfolding digits
value-digits zero n h = rw (below 10 n (omega arith)) (omega arith)
value-digits (suc fuel) n h = elim (Bool-cases (ltb n 10)) [
  | inl z ↦ rw z (omega arith)
  | inr z ↦
      let first = value-digits fuel (n / 10) (ground arith) in
      rw (z, value-append 0 (digits (suc fuel) (n / 10)) (b'0' + n % 10), first) (omega arith)
]

-- The decimal text of a number stands for that number.
pub value-format_nat : (n : ℕ) → value 0 (format_nat n) ≡ n
unfolding format_nat
value-format_nat n = value-digits n n (omega arith)
