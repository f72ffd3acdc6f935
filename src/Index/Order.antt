-- ===== src/Index/Order.antt =====
-- kv_index.cc: `_cmp_key` as an order of the keys.
use pingkv.Base.{◌≡◌, ◌↔◌, refl, ap, sym, ◌∙◌, [], ◌∷◌, Bytes, arith}
use pingkv.Index.Node.{Order, less, equal, greater, cmp_key}

abbrev pub swapped : Order → Order
swapped less = greater
swapped equal = equal
swapped greater = less

pub cmp_key_self : (a : Bytes) → cmp_key a a ≡ equal
unfolding cmp_key
cmp_key_self [] = refl
cmp_key_self (c ∷ cs) = ground (arith, cmp_key_self cs)

pub cmp_key-equal : (a b : Bytes) → cmp_key a b ≡ equal → a ≡ b
unfolding cmp_key
cmp_key-equal [] [] e = refl
cmp_key-equal [] (d ∷ ds) e = absurd (cc)
cmp_key-equal (c ∷ cs) [] e = absurd (cc)
cmp_key-equal (c ∷ cs) (d ∷ ds) e = ground (arith, cmp_key-equal cs ds)

cmp_key-swap : (a b : Bytes) → cmp_key b a ≡ swapped (cmp_key a b)
unfolding cmp_key
cmp_key-swap [] [] = refl
cmp_key-swap [] (d ∷ ds) = refl
cmp_key-swap (c ∷ cs) [] = refl
cmp_key-swap (c ∷ cs) (d ∷ ds) = ground (arith, cmp_key-swap cs ds)

-- A key that is below a second one, which is below a third, is below the third.
pub cmp_key_trans : (a b c : Bytes) → cmp_key a b ≡ less → cmp_key b c ≡ less → cmp_key a c ≡ less
unfolding cmp_key
cmp_key_trans [] [] c h k = absurd (cc)
cmp_key_trans [] (y ∷ b) [] h k = absurd (cc)
cmp_key_trans [] (y ∷ b) (z ∷ c) h k = refl
cmp_key_trans (x ∷ a) [] c h k = absurd (cc)
cmp_key_trans (x ∷ a) (y ∷ b) [] h k = absurd (cc)
cmp_key_trans (x ∷ a) (y ∷ b) (z ∷ c) h k = ground (arith, cmp_key_trans a b c)

-- `_cmp_key` tells keys apart: two keys compare as equal exactly if they are the same, and the
-- results of the two orders of its arguments are opposite.
pub cmp_key-total :
    (a b : Bytes) → ((cmp_key a b ≡ equal) ↔ (a ≡ b)) × (cmp_key b a ≡ swapped (cmp_key a b))
cmp_key-total a b =
    ((cmp_key-equal a b, λ e. ap (cmp_key a) (sym e) ∙ cmp_key_self a), cmp_key-swap a b)
