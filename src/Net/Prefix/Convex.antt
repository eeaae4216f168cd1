-- ===== src/Net/Prefix/Convex.antt =====
-- The addresses of a CIDR prefix are consecutive: what lies between two of them is one of them.
use topohub.Common.{
  ℕ, zero, suc, ◌-◌, ◌*◌, ◌/◌, ◌≤◌, ◌<◌, ◌≡◌, refl, sym, ap, ap₂, ◌∙◌, inl, inr, Bool, true, false,
  ◌&&◌, List, [], ◌∷◌, arith, leb, ◌==◌, ==_iff, Bool-cases, length,
}
use Prim.Native.Nat.{bit_and}
use topohub.Net.Ip.{IsByte, AreBytes, compare_bytes, is_le}
use topohub.Net.Prefix.{and_bytes, cidr_mask, mask_byte}

-- the test passes at every number below the bound
passes : (ℕ → Bool) → ℕ → Bool
passes test zero = true
passes test (suc bound) = passes test bound && test bound

passes_at :
    (test : ℕ → Bool) (bound : ℕ) → passes test bound ≡ true → (x : ℕ) → x < bound → test x ≡ true
unfolding passes
passes_at test zero h x below = absurd (omega arith)
passes_at test (suc bound) h x below = ground (arith, passes_at test bound (ground arith) x)

-- A mask byte with `n` bits clears the other 8 - n.
clears :
    (n k : ℕ)
    → passes (λ x. bit_and x (mask_byte n) == x / k * k) 256 ≡ true
    → (x : ℕ) → IsByte x
    → bit_and x (mask_byte n) ≡ x / k * k
clears n k table x h =
    (==_iff (bit_and x (mask_byte n)) (x / k * k)).0
      (passes_at (λ y. bit_and y (mask_byte n) == y / k * k) 256 table x h)

squeeze_div : (k a x b : ℕ) → 0 < k → a ≤ x → x ≤ b → a / k ≡ b / k → x / k ≡ a / k
squeeze_div k a x b pos h g e = grind arith

mul_cancel : (k p q : ℕ) → 0 < k → p * k ≡ q * k → p ≡ q
mul_cancel k p q pos e = grind arith

squeeze_at :
    (n k : ℕ)
    → passes (λ x. bit_and x (mask_byte n) == x / k * k) 256 ≡ true
    → 0 < k
    → (a x b : ℕ) → IsByte b
    → a ≤ x
    → x ≤ b
    → bit_and a (mask_byte n) ≡ bit_and b (mask_byte n)
    → bit_and x (mask_byte n) ≡ bit_and a (mask_byte n)
squeeze_at n k table pos a x b hb h g e =
    let ea = clears n k table a (omega arith) in
    let eb = clears n k table b hb in
    let ex = clears n k table x (omega arith) in
    let blocks = squeeze_div k a x b pos h g (mul_cancel k (a / k) (b / k) pos (sym ea ∙ e ∙ eb)) in
    ex ∙ ap (λ (t : ℕ). t * k) blocks ∙ sym ea

-- Between two bytes that agree under a mask byte, all bytes agree with them.
squeeze_byte :
    (n a x b : ℕ)
    → n < 8
    → IsByte b
    → a ≤ x
    → x ≤ b
    → bit_and a (mask_byte n) ≡ bit_and b (mask_byte n)
    → bit_and x (mask_byte n) ≡ bit_and a (mask_byte n)
unfolding passes
squeeze_byte zero a x b n8 = squeeze_at 0 256 refl (omega arith) a x b
squeeze_byte (suc zero) a x b n8 = squeeze_at 1 128 refl (omega arith) a x b
squeeze_byte (suc (suc zero)) a x b n8 = squeeze_at 2 64 refl (omega arith) a x b
squeeze_byte (suc (suc (suc zero))) a x b n8 = squeeze_at 3 32 refl (omega arith) a x b
squeeze_byte (suc (suc (suc (suc zero)))) a x b n8 = squeeze_at 4 16 refl (omega arith) a x b
squeeze_byte (suc (suc (suc (suc (suc zero))))) a x b n8 = squeeze_at 5 8 refl (omega arith) a x b
squeeze_byte (suc (suc (suc (suc (suc (suc zero)))))) a x b n8 =
    squeeze_at 6 4 refl (omega arith) a x b
squeeze_byte (suc (suc (suc (suc (suc (suc (suc zero))))))) a x b n8 =
    squeeze_at 7 2 refl (omega arith) a x b
squeeze_byte (suc (suc (suc (suc (suc (suc (suc (suc n)))))))) a x b n8 = absurd (omega arith)

whole_byte : (x : ℕ) → IsByte x → bit_and x 255 ≡ x
unfolding passes
whole_byte x h = (==_iff (bit_and x 255) x).0 (passes_at (λ y. bit_and y 255 == y) 256 refl x h)

no_bits : (x : ℕ) → IsByte x → bit_and x 0 ≡ 0
unfolding passes
no_bits x h = (==_iff (bit_and x 0) 0).0 (passes_at (λ y. bit_and y 0 == 0) 256 refl x h)

-- Behind the last bit of the mask nothing is compared.
empty_mask :
    (n : ℕ) (s t : List ℕ)
    → length s ≡ n
    → length t ≡ n
    → AreBytes s
    → AreBytes t
    → and_bytes s (cidr_mask 0 n) ≡ and_bytes t (cidr_mask 0 n)
unfolding and_bytes cidr_mask
empty_mask zero [] [] p q hs ht = refl
empty_mask zero [] (y ∷ t) p q hs ht = absurd (omega arith)
empty_mask zero (x ∷ s) t p q hs ht = absurd (omega arith)
empty_mask (suc n) [] t p q hs ht = absurd (omega arith)
empty_mask (suc n) (x ∷ s) [] p q hs ht = absurd (omega arith)
empty_mask (suc n) (x ∷ s) (y ∷ t) p q hs ht =
    ap₂ ◌∷◌ (no_bits x hs.0 ∙ sym (no_bits y ht.0))
      (empty_mask n s t (omega arith) (omega arith) hs.1 ht.1)

cons-injective : {a b : ℕ} {s t : List ℕ} → a ∷ s ≡ b ∷ t → (a ≡ b) × (s ≡ t)
cons-injective e = (cc, cc)

head-le :
    (a b : ℕ) (s t : List ℕ)
    → is_le (compare_bytes (a ∷ s) (b ∷ t)) ≡ true
    → (a ≤ b) × (a ≡ b → is_le (compare_bytes s t) ≡ true)
unfolding compare_bytes
head-le a b s t h = (ground arith, λ e. ground arith)

mask_byte_whole : (n : ℕ) → leb 8 n ≡ true → mask_byte n ≡ 255
mask_byte_whole n h = ground arith

no_mask : (n : ℕ) → leb 8 n ≡ false → n - 8 ≡ 0
no_mask n h = ground arith

-- Between two addresses that agree under a prefix mask, all addresses agree with them.
pub squeeze_mask :
    (ones n : ℕ) (a x b : List ℕ)
    → length a ≡ n
    → length x ≡ n
    → length b ≡ n
    → AreBytes a
    → AreBytes x
    → AreBytes b
    → is_le (compare_bytes a x) ≡ true
    → is_le (compare_bytes x b) ≡ true
    → and_bytes a (cidr_mask ones n) ≡ and_bytes b (cidr_mask ones n)
    → and_bytes x (cidr_mask ones n) ≡ and_bytes a (cidr_mask ones n)
unfolding and_bytes cidr_mask compare_bytes
squeeze_mask ones zero [] [] b p q r ha hx hb h g e = refl
squeeze_mask ones zero (_ ∷ _) x b p q r ha hx hb h g e = absurd (omega arith)
squeeze_mask ones zero [] (_ ∷ _) b p q r ha hx hb h g e = absurd (omega arith)
squeeze_mask ones (suc n) [] x b p q r ha hx hb h g e = absurd (omega arith)
squeeze_mask ones (suc n) (_ ∷ _) [] b p q r ha hx hb h g e = absurd (omega arith)
squeeze_mask ones (suc n) (_ ∷ _) (_ ∷ _) [] p q r ha hx hb h g e = absurd (omega arith)
squeeze_mask ones (suc n) (a ∷ as') (x ∷ xs) (b ∷ bs) p q r ha hx hb h g e =
    elim (Bool-cases (leb 8 ones)) [
      | inl whole ↦
          let m = mask_byte_whole ones whole in
          let (e0, e1) = cons-injective e in
          let ab = sym (whole_byte a ha.0) ∙ rw m at e0 ∙ whole_byte b hb.0 in
          let (ax, tail_ax) = head-le a x as' xs h in
          let (xb, tail_xb) = head-le x b xs bs g in
          let same : x ≡ a = omega arith in
          ap₂ ◌∷◌ (ap (λ (t : ℕ). bit_and t (mask_byte ones)) same) (
            squeeze_mask (ones - 8) n as' xs bs (omega arith) (omega arith) (omega arith) ha.1 hx.1
              hb.1 (tail_ax (sym same)) (tail_xb (same ∙ ab)) e1)
      | inr part ↦
          let (e0, e1) = cons-injective e in
          let (ax, tail_ax) = head-le a x as' xs h in
          let (xb, tail_xb) = head-le x b xs bs g in
          ap₂ ◌∷◌ (squeeze_byte ones a x b (ground arith) hb.0 ax xb e0)
            (rw (no_mask ones part) (empty_mask n xs as' (omega arith) (omega arith) hx.1 ha.1))
    ]
