-- ===== src/Index/Records.antt =====
-- kv_index.cc: a node as the list of its records, and what the loop of `_find_pos` finds in it.
use pingkv.Base.{
  ℕ, zero, suc, ◌+◌, ◌*◌, ◌≤◌, ◌<◌, ◌≡◌, ◌≢◌, inl, inr, refl, ap, ◌∙◌, true, Option, none, some,
  List, [], ◌∷◌, ◌++◌, Bytes, length, arith,
}
use pingkv.Base.Memory.{Memory, slice, slice_congr}
use pingkv.Index.{node_len, k_info_size, KInfo, get_info_at, key_at}
use pingkv.Index.Node.{less, greater, cmp_key, inside, hit, miss, scan, better}
use pingkv.Index.Order.{cmp_key-equal, cmp_key_self}
use pingkv.Index.Fields.{get_info_at_congr}
use pingkv.Index.Search.{Order-cases}

-- The records from the offset `o` on, each behind the other, in the node.
abbrev pub Holds : Memory → ℕ → List (KInfo × Bytes) → Type 0
Holds m o [] = Unit {0}
Holds m o ((i, k) ∷ rs) =
    (get_info_at m o ≡ i)
    × (i.key_len ≡ length k)
    × (slice m (o + k_info_size) (length k) ≡ k)
    × (o + k_info_size + length k ≤ node_len)
    × Holds m (o + k_info_size + length k) rs

-- The offset behind them.
abbrev pub end_of : ℕ → List (KInfo × Bytes) → ℕ
end_of o [] = o
end_of o ((i, k) ∷ rs) = end_of (o + k_info_size + length k) rs

pub end_of_le : (o : ℕ) (rs : List (KInfo × Bytes)) → o + 12 * length rs ≤ end_of o rs
end_of_le o [] = omega arith
end_of_le o ((i, k) ∷ rs) = omega (arith, end_of_le (o + k_info_size + length k) rs)

pub Holds-congr :
    (f g : Memory) (o : ℕ) (rs : List (KInfo × Bytes))
    → ((i : ℕ) → o ≤ i → i < end_of o rs → f i ≡ g i)
    → Holds g o rs
    → Holds f o rs
Holds-congr f g o [] h v = v
Holds-congr f g o ((i, k) ∷ rs) h (info, len, key, fits, rest) =
    let past = end_of_le (o + k_info_size + length k) rs in
    (
      get_info_at_congr f g o (λ j lo hi. h j lo (omega arith)) ∙ info,
      len,
      slice_congr f g (o + k_info_size) (length k) (λ j lo hi. h j (omega arith) (omega arith))
          ∙ key,
      fits,
      Holds-congr f g (o + k_info_size + length k) rs (λ j lo hi. h j (omega arith) hi) rest,
    )

pub Holds-append :
    (m : Memory) (o : ℕ) (rs ss : List (KInfo × Bytes))
    → Holds m o rs
    → Holds m (end_of o rs) ss
    → Holds m o (rs ++ ss)
Holds-append m o [] ss v w = w
Holds-append m o ((i, k) ∷ rs) ss (info, len, key, fits, rest) w =
    (info, len, key, fits, Holds-append m (o + k_info_size + length k) rs ss rest w)

-- A record that is there: it lies in the node, has its key, and the next one is behind it.
module _ (m : Memory) (o : ℕ) (i : KInfo) (k : Bytes) (info : get_info_at m o ≡ i)
    (len : i.key_len ≡ length k) (key : slice m (o + k_info_size) (length k) ≡ k)
    (fits : o + k_info_size + length k ≤ node_len) where
  read_len : (get_info_at m o).key_len ≡ length k
  read_len = ap (λ x. x.key_len) info ∙ len

  read_inside : inside m o ≡ true
  unfolding inside
  read_inside = rw (inside, read_len) (ground (arith, fits))

  pub read_key : key_at m o ≡ k
  unfolding key_at
  read_key = rw (key_at, read_len) key

  pub scan-equal : (n : ℕ) (best : Option ℕ) → scan (suc n) m k o best ≡ some (hit o)
  unfolding scan
  scan-equal n best = rw (scan, read_inside, read_key, cmp_key_self k) refl

  pub scan-less :
      (n : ℕ) (q : Bytes) (best : Option ℕ)
      → cmp_key k q ≡ less
      → scan (suc n) m q o best ≡ scan n m q (o + k_info_size + length k) best
  unfolding scan
  scan-less n q best c = rw (scan, read_inside, read_key, c, read_len) refl

  pub scan-greater :
      (n : ℕ) (q : Bytes) (best : Option ℕ)
      → cmp_key k q ≡ greater
      → scan (suc n) m q o best ≡ scan n m q (o + k_info_size + length k) (better m best o)
  unfolding scan
  scan-greater n q best c = rw (scan, read_inside, read_key, c, read_len) refl

-- No record has the key.
abbrev pub Lacks : Bytes → List (KInfo × Bytes) → Type 0
Lacks q [] = Unit {0}
Lacks q ((i, k) ∷ rs) = (k ≢ q) × Lacks q rs

-- All keys are below it.
abbrev pub Below : Bytes → List (KInfo × Bytes) → Type 0
Below q [] = Unit {0}
Below q ((i, k) ∷ rs) = (cmp_key k q ≡ less) × Below q rs

-- The loop reaches the first record with the key.
pub scan-hit :
    (m : Memory) (o n : ℕ) (rs : List (KInfo × Bytes)) (i : KInfo) (q : Bytes)
    (ss : List (KInfo × Bytes)) (best : Option ℕ)
    → Holds m o (rs ++ (i, q) ∷ ss)
    → Lacks q rs
    → length rs < n
    → scan n m q o best ≡ some (hit (end_of o rs))
scan-hit m o zero rs i q ss best v lacks lt = absurd (omega arith)
scan-hit m o (suc n) [] i q ss best (info, len, key, fits, rest) lacks lt =
    scan-equal m o i q info len key fits n best
scan-hit m o (suc n) ((j, k) ∷ rs) i q ss best (info, len, key, fits, rest) (ne, lacks) lt =
    let next = o + k_info_size + length k in
    elim (Order-cases (cmp_key k q)) [
      | inl same ↦ absurd (ne (cmp_key-equal k q same))
      | inr (inl below) ↦
          scan-less m o j k info len key fits n q best below
          ∙ scan-hit m next n rs i q ss best rest lacks (omega arith)
      | inr (inr above) ↦
          scan-greater m o j k info len key fits n q best above
          ∙ scan-hit m next n rs i q ss (better m best o) rest lacks (omega arith)
    ]

-- Past keys that are all below it, the loop ends without a match.
pub scan-miss :
    (m : Memory) (o : ℕ) (rs : List (KInfo × Bytes)) (q : Bytes)
    → Holds m o rs
    → Below q rs
    → scan (length rs) m q o none ≡ some (miss none (end_of o rs))
unfolding scan
scan-miss m o [] q v below = refl
scan-miss m o ((j, k) ∷ rs) q (info, len, key, fits, rest) (c, below) =
    scan-less m o j k info len key fits (length rs) q none c
    ∙ scan-miss m (o + k_info_size + length k) rs q rest below
