-- ===== src/Index/Absent.antt =====
-- kv_index.cc: a key that a node without children does not have.
use pingkv.Base.{
  ℕ, suc, ◌+◌, ◌-◌, ◌≤◌, ◌<◌, ◌≡◌, refl, ap, ◌∙◌, true, false, Option, none, some, List, [], ◌∷◌,
  Bytes, length, arith, leb, le→leb, inl, inr,
}
use pingkv.Base.Memory.{Memory, slice}
use pingkv.DataFile.{DataFile, Os, ok}
use pingkv.Index.{
  node_len, head_size, k_info_size, record_count, KInfo, get_info_at, put_info_at, key_at,
}
use pingkv.Index.Node.{Order, less, equal, greater, cmp_key, miss, scan, better, no_info, find_pos}
use pingkv.Index.Tree.{is_key, find_key}
use pingkv.Index.Fields.{get_info_at-put_info_at}
use pingkv.Index.Order.{cmp_key-equal}
use pingkv.Index.Search.{Order-cases}
use pingkv.Index.Records.{Holds, end_of, read_key, scan-less, scan-greater, Lacks}
use pingkv.Index.Insert.{IsNode}

-- The records have no children.
abbrev pub Leaves : List (KInfo × Bytes) → Type 0
Leaves [] = Unit {0}
Leaves ((i, k) ∷ rs) = (i.left_child_block_id ≡ 0) × Leaves rs

-- A match of the loop that leads nowhere.
abbrev Stops : Memory → Bytes → Option ℕ → Type 0
Stops m q none = Unit {0}
Stops m q (some p) = (is_key m p q ≡ false) × ((get_info_at m p).left_child_block_id ≡ 0)

better-Stops :
    (m : Memory) (q : Bytes) (best : Option ℕ) (o : ℕ)
    → Stops m q best
    → Stops m q (some o)
    → Stops m q (better m best o)
better-Stops m q none o s t = t
better-Stops m q (some p) o s t = go (cmp_key (key_at m p) (key_at m o))
  where
    go : (c : Order) → Stops m q (elim c [ greater ↦ some o | equal ↦ some p | less ↦ some p ])
    go greater = t
    go equal = s
    go less = s

not_key :
    (m : Memory) (o : ℕ) (k q : Bytes)
    → key_at m o ≡ k
    → cmp_key k q ≡ greater
    → is_key m o q ≡ false
not_key m o k q at c = rw (is_key, at, c) refl

-- Past records that do not have the key.
scan-Stops :
    (m : Memory) (o : ℕ) (rs : List (KInfo × Bytes)) (q : Bytes) (best : Option ℕ)
    → Holds m o rs
    → Leaves rs
    → Lacks q rs
    → Stops m q best
    → (b : Option ℕ) × (scan (length rs) m q o best ≡ some (miss b (end_of o rs))) × Stops m q b
unfolding scan
scan-Stops m o [] q best v leaves lacks s = (best, refl, s)
scan-Stops m o ((i, k) ∷ rs) q best (info, len, key, fits, rest) (leaf, leaves) (ne, lacks) s =
    let next = o + k_info_size + length k in
    elim (Order-cases (cmp_key k q)) [
      | inl same ↦ absurd (ne (cmp_key-equal k q same))
      | inr (inl below) ↦
          let (b, e, t) = scan-Stops m next rs q best rest leaves lacks s in
          (b, scan-less m o i k info len key fits (length rs) q best below ∙ e, t)
      | inr (inr above) ↦
          let here : Stops m q (some o) = (
            not_key m o k q (read_key m o i k info len key fits) above,
            ap (λ x. x.left_child_block_id) info ∙ leaf,
          ) in
          let (b, e, t) =
            scan-Stops m next rs q (better m best o) rest leaves lacks
              (better-Stops m q best o s here) in
          (b, scan-greater m o i k info len key fits (length rs) q best above ∙ e, t)
    ]

-- The empty record that `_find_pos` puts behind the others.
empty_key : (m : Memory) (o : ℕ) → get_info_at m o ≡ no_info → key_at m o ≡ []
unfolding key_at slice
empty_key m o e = ap (λ i. slice m (o + k_info_size) i.key_len) e

empty_not_key :
    (m : Memory) (o : ℕ) (q : Bytes) → key_at m o ≡ [] → 0 < length q → is_key m o q ≡ false
unfolding cmp_key
empty_not_key m o [] e lt = absurd (omega arith)
empty_not_key m o (c ∷ q) e lt =
    ap (λ k. elim (cmp_key k (c ∷ q)) [ equal ↦ true | less ↦ false | greater ↦ false ]) e

module _ (os : Os) (fresh : Memory) where
  stops_at :
      (fuel : ℕ) (m m' : Memory) (o : ℕ) (q : Bytes) (d : DataFile)
      → find_pos m q ≡ some (some o, m')
      → is_key m' o q ≡ false
      → (get_info_at m' o).left_child_block_id ≡ 0
      → find_key os fresh (suc fuel) m q d ≡ ok (0, 0) d
  unfolding find_key
  stops_at fuel m m' o q d found other leaf = ground (arith, found, other, leaf)

  -- `_find_key` gives block 0 for a key that a node without children does not have.
  pub find_key-Lacks :
      (fuel : ℕ) (m : Memory) (rs : List (KInfo × Bytes)) (q : Bytes) (d : DataFile)
      → IsNode m rs
      → Leaves rs
      → Lacks q rs
      → 0 < length q
      → length q ≤ 8124
      → end_of head_size rs + k_info_size ≤ node_len
      → find_key os fresh (suc fuel) m q d ≡ ok (0, 0) d
  unfolding find_pos
  find_key-Lacks fuel m rs q d v leaves lacks some_key short room =
      let (b, e, t) = scan-Stops m head_size rs q none v.holds leaves lacks tt in
      let whole : scan (record_count m) m q head_size none ≡ some (miss b (end_of head_size rs)) =
        rw v.count_ok e in
      go b whole t
    where
      go :
          (b : Option ℕ)
          → scan (record_count m) m q head_size none ≡ some (miss b (end_of head_size rs))
          → Stops m q b
          → find_key os fresh (suc fuel) m q d ≡ ok (0, 0) d
      go (some o) e (other, leaf) = stops_at fuel m m o q d (rw (find_pos, e) refl) other leaf
      go none e t =
          let end = end_of head_size rs in
          let m' = put_info_at m end no_info in
          let fits : leb (k_info_size + length q) (node_len - head_size) ≡ true =
            le→leb _ _ (omega arith) in
          let there : leb (end + k_info_size) node_len ≡ true = le→leb _ _ room in
          let empty : get_info_at m' end ≡ no_info =
            get_info_at-put_info_at m end no_info
              (record { left_ok = refl; block_ok = refl; row_ok = refl; len_ok = refl }) in
          stops_at fuel m m' end q d (rw (find_pos, e, fits, there) refl)
            (empty_not_key m' end q (empty_key m' end empty) some_key)
            (ap (λ i. i.left_child_block_id) empty)
