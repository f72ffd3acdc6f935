-- ===== src/Index/Search.antt =====
-- kv_index.cc: what the loop of `_find_pos` ends with.
use mathlib.Core.Path.{subst}
use pingkv.Base.{
  Bool-cases, ℕ, zero, suc, ◌+◌, ◌≡◌, ◌≢◌, ◌⊎◌, refl, Option, none, some, Bytes, inl, inr,
}
use pingkv.Base.Memory.{Memory}
use pingkv.Index.{k_info_size, get_info_at, key_at}
use pingkv.Index.Node.{Order, less, equal, greater, cmp_key, inside, Scan, hit, miss, scan, better}
use pingkv.Index.Order.{cmp_key-equal, cmp_key-total}

-- The offset of a record is one of those that the loop walks over.
abbrev pub At : ℕ → Memory → ℕ → ℕ → Type 0
At zero m o p = ⊥
At (suc n) m o p = (p ≡ o) ⊎ At n m (o + k_info_size + (get_info_at m o).key_len) p

-- No record has the key.
abbrev pub Absent : ℕ → Memory → ℕ → Bytes → Type 0
Absent zero m o key = Unit {0}
Absent (suc n) m o key =
    (key_at m o ≢ key) × Absent n m (o + k_info_size + (get_info_at m o).key_len) key

abbrev pub Found : ℕ → Memory → ℕ → Bytes → Scan → Type 0
Found n m o key (hit p) = At n m o p × (key_at m p ≡ key)
Found n m o key (miss best end) = Absent n m o key

Found-step :
    (n : ℕ) (m : Memory) (o : ℕ) (key : Bytes)
    → key_at m o ≢ key
    → (s : Scan) → Found n m (o + k_info_size + (get_info_at m o).key_len) key s
    → Found (suc n) m o key s
Found-step n m o key ne (hit p) (at_p, same) = (inr at_p, same)
Found-step n m o key ne (miss best end) absent = (ne, absent)

pub Order-cases : (c : Order) → (c ≡ equal) ⊎ ((c ≡ less) ⊎ (c ≡ greater))
Order-cases equal = inl refl
Order-cases less = inr (inl refl)
Order-cases greater = inr (inr refl)

-- Keys that do not compare as equal.
pub other_less : {a b : Bytes} → cmp_key a b ≡ less → a ≢ b
other_less {a} {b} h e =
    let ((same, back), opposite) = cmp_key-total a b in let q = back e in absurd (cc)

other_greater : {a b : Bytes} → cmp_key a b ≡ greater → a ≢ b
other_greater {a} {b} h e =
    let ((same, back), opposite) = cmp_key-total a b in let q = back e in absurd (cc)

-- When the loop of `_find_pos` ends with a record, the record is one of the node's and has the key;
-- when it ends without one, no record of the node has the key.
pub scan-Found :
    (n : ℕ) (m : Memory) (key : Bytes) (o : ℕ) (best : Option ℕ) (s : Scan)
    → scan n m key o best ≡ some s
    → Found n m o key s
unfolding scan
scan-Found zero m key o best s e =
    let same : miss best o ≡ s = cc in subst (Found 0 m o key) same tt
scan-Found (suc n) m key o best s e = elim (Bool-cases (inside m o)) [
  | inr out ↦ let stop : none ≡ some s = rw (scan, out) at e in absurd (cc)
  | inl in_node ↦
      let next = o + k_info_size + (get_info_at m o).key_len in
      elim (Order-cases (cmp_key (key_at m o) key)) [
        | inl same_key ↦
            let stop : some (hit o) ≡ some s = rw (scan, in_node, same_key) at e in
            let same : hit o ≡ s = cc in
            subst (Found (suc n) m o key) same (inl refl, cmp_key-equal (key_at m o) key same_key)
        | inr (inl below) ↦
            let on : scan n m key next best ≡ some s = rw (scan, in_node, below) at e in
            Found-step n m o key (other_less below) s (scan-Found n m key next best s on)
        | inr (inr above) ↦
            let on : scan n m key next (better m best o) ≡ some s =
              rw (scan, in_node, above) at e in
            Found-step n m o key (other_greater above) s
              (scan-Found n m key next (better m best o) s on)
      ]
]
