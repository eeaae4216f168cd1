-- ===== src/Net/Order.antt =====
-- The order of bytes.Compare is total: the facts that the range checks rest on.
use topohub.Common.{◌≡◌, refl, true, [], ◌∷◌, arith}
use topohub.Net.Ip.{Ip, compare_bytes, is_le, is_ge}

pub le_refl : (a : Ip) → is_le (compare_bytes a a) ≡ true
unfolding compare_bytes
le_refl [] = refl
le_refl (x ∷ a) = ground (arith, le_refl a)

pub le_trans :
    (a b c : Ip)
    → is_le (compare_bytes a b) ≡ true
    → is_le (compare_bytes b c) ≡ true
    → is_le (compare_bytes a c) ≡ true
unfolding compare_bytes
le_trans [] [] [] h k = refl
le_trans [] [] (z ∷ c) h k = refl
le_trans [] (y ∷ b) [] h k = refl
le_trans [] (y ∷ b) (z ∷ c) h k = refl
le_trans (x ∷ a) [] c h k = cc
le_trans (x ∷ a) (y ∷ b) [] h k = cc
le_trans (x ∷ a) (y ∷ b) (z ∷ c) h k = ground (arith, le_trans a b c)

pub le_antisymm :
    (a b : Ip) → is_le (compare_bytes a b) ≡ true → is_le (compare_bytes b a) ≡ true → a ≡ b
unfolding compare_bytes
le_antisymm [] [] h k = refl
le_antisymm [] (y ∷ b) h k = cc
le_antisymm (x ∷ a) [] h k = cc
le_antisymm (x ∷ a) (y ∷ b) h k = ground (arith, le_antisymm a b)

-- `c >= 0` is the order the other way round.
pub ge-eq-le : (a b : Ip) → is_ge (compare_bytes a b) ≡ is_le (compare_bytes b a)
unfolding compare_bytes
ge-eq-le [] [] = refl
ge-eq-le [] (y ∷ b) = refl
ge-eq-le (x ∷ a) [] = refl
ge-eq-le (x ∷ a) (y ∷ b) = ground (arith, ge-eq-le a b)
