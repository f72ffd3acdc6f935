-- ===== src/Index/Fields.antt =====
-- kv_index.h: the numbers in a node, written and read again.
use pingkv.Base.{
  ℕ, zero, suc, ◌+◌, ◌/◌, ◌%◌, ◌≤◌, ◌<◌, ◌≡◌, ◌⊎◌, inl, inr, refl, sym, ap, ◌∙◌, ◌∷◌, length, arith,
}
use pingkv.Base.Memory.{Memory, blit, blit-below, blit-above, blit_head, blit_tail}
use pingkv.Index.{k_info_size, get_int, put_int, int_bytes, KInfo, get_info_at, put_info_at}

pub length-int_bytes : (n i : ℕ) → length (int_bytes n i) ≡ n
length-int_bytes zero i = refl
length-int_bytes (suc n) i = ap suc (length-int_bytes n (i / 256))

-- Two buffers with the same bytes from `o` on.
abbrev pub Agree : ℕ → ℕ → Memory → Memory → Type 0
Agree o n f g = (i : ℕ) → o ≤ i → i < o + n → f i ≡ g i

pub get_int_congr : (n : ℕ) (f g : Memory) (o : ℕ) → Agree o n f g → get_int n f o ≡ get_int n g o
unfolding get_int
get_int_congr zero f g o h = refl
get_int_congr (suc n) f g o h =
    let first = h o (omega arith) (omega arith) in
    let rest = get_int_congr n f g (o + 1) λ i lo hi. h i (omega arith) (omega arith) in
    rw (first, rest) refl

-- A number that its bytes can hold.
abbrev pub Fits : ℕ → ℕ → Type 0
Fits zero i = i ≡ 0
Fits (suc n) i = Fits n (i / 256)

pub get_int-put_int : (n : ℕ) (m : Memory) (o i : ℕ) → Fits n i → get_int n (put_int n m o i) o ≡ i
unfolding get_int put_int
get_int-put_int zero m o i fits = sym fits
get_int-put_int (suc n) m o i fits =
    let f = blit m o (i % 256 ∷ int_bytes n (i / 256)) in
    let first : f o ≡ i % 256 = blit_head m o (i % 256) (int_bytes n (i / 256)) in
    let rest : get_int n f (o + 1) ≡ i / 256 =
      get_int_congr n f (put_int n m (o + 1) (i / 256)) (o + 1)
        (λ j lo hi. blit_tail m o (i % 256) (int_bytes n (i / 256)) j (omega arith))
      ∙ get_int-put_int n m (o + 1) (i / 256) fits in
    rw (first, rest) (omega arith)

-- A number leaves the bytes in front of it and behind it.
pub put_int_other :
    (n : ℕ) (m : Memory) (o i j : ℕ) → (j < o) ⊎ (o + n ≤ j) → put_int n m o i j ≡ m j
unfolding put_int
put_int_other n m o i j (inl below) = blit-below m o (int_bytes n i) j below
put_int_other n m o i j (inr above) =
    blit-above m o (int_bytes n i) j (rw (length-int_bytes n i) above)

pub put_info_at_other :
    (m : Memory) (o : ℕ) (i : KInfo) (j : ℕ)
    → (j < o) ⊎ (o + k_info_size ≤ j)
    → put_info_at m o i j ≡ m j
unfolding put_info_at
put_info_at_other m o i j (inl below) =
    put_int_other 2 _ (o + 10) i.key_len j (inl (omega arith))
    ∙ put_int_other 2 _ (o + 8) i.row_idx j (inl (omega arith))
    ∙ put_int_other 4 _ (o + 4) i.block_id j (inl (omega arith))
    ∙ put_int_other 4 m o i.left_child_block_id j (inl below)
put_info_at_other m o i j (inr above) =
    put_int_other 2 _ (o + 10) i.key_len j (inr (omega arith))
    ∙ put_int_other 2 _ (o + 8) i.row_idx j (inr (omega arith))
    ∙ put_int_other 4 _ (o + 4) i.block_id j (inr (omega arith))
    ∙ put_int_other 4 m o i.left_child_block_id j (inr (omega arith))

pub get_info_at_congr :
    (f g : Memory) (o : ℕ) → Agree o k_info_size f g → get_info_at f o ≡ get_info_at g o
unfolding get_info_at
get_info_at_congr f g o h =
    let a = get_int_congr 4 f g o λ i lo hi. h i (omega arith) (omega arith) in
    let b = get_int_congr 4 f g (o + 4) λ i lo hi. h i (omega arith) (omega arith) in
    let c = get_int_congr 2 f g (o + 8) λ i lo hi. h i (omega arith) (omega arith) in
    let d = get_int_congr 2 f g (o + 10) λ i lo hi. h i (omega arith) (omega arith) in
    rw (a, b, c, d) refl

-- The fields of a record, each a number of its size.
pub record IsInfo (i : KInfo) : Type 0 where
  pub left_ok : Fits 4 i.left_child_block_id
  pub block_ok : Fits 4 i.block_id
  pub row_ok : Fits 2 i.row_idx
  pub len_ok : Fits 2 i.key_len

-- The number at `o` under one that is written behind it.
under :
    (n k : ℕ) (m : Memory) (o p i : ℕ) → o + n ≤ p → get_int n (put_int k m p i) o ≡ get_int n m o
under n k m o p i le =
    get_int_congr n (put_int k m p i) m o λ j lo hi. put_int_other k m p i j (inl (omega arith))

pub get_info_at-put_info_at :
    (m : Memory) (o : ℕ) (i : KInfo) → IsInfo i → get_info_at (put_info_at m o i) o ≡ i
unfolding get_info_at put_info_at
get_info_at-put_info_at m o i ok =
    let m₁ = put_int 4 m o i.left_child_block_id in
    let m₂ = put_int 4 m₁ (o + 4) i.block_id in
    let m₃ = put_int 2 m₂ (o + 8) i.row_idx in
    let m₄ = put_int 2 m₃ (o + 10) i.key_len in
    let a : get_int 4 m₄ o ≡ i.left_child_block_id =
      under 4 2 m₃ o (o + 10) i.key_len (omega arith)
      ∙ under 4 2 m₂ o (o + 8) i.row_idx (omega arith)
      ∙ under 4 4 m₁ o (o + 4) i.block_id (omega arith)
      ∙ get_int-put_int 4 m o i.left_child_block_id ok.left_ok in
    let b : get_int 4 m₄ (o + 4) ≡ i.block_id =
      under 4 2 m₃ (o + 4) (o + 10) i.key_len (omega arith)
      ∙ under 4 2 m₂ (o + 4) (o + 8) i.row_idx (omega arith)
      ∙ get_int-put_int 4 m₁ (o + 4) i.block_id ok.block_ok in
    let c : get_int 2 m₄ (o + 8) ≡ i.row_idx =
      under 2 2 m₃ (o + 8) (o + 10) i.key_len (omega arith)
      ∙ get_int-put_int 2 m₂ (o + 8) i.row_idx ok.row_ok in
    let d : get_int 2 m₄ (o + 10) ≡ i.key_len = get_int-put_int 2 m₃ (o + 10) i.key_len ok.len_ok in
    rw (a, b, c, d) refl
