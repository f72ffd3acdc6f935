-- ===== src/IoBuf/Back.antt =====
-- The last block of the queue of blocks, where the writer works.
use mathlib.Core.Path.{subst}
use pingkv.Base.{
  ℕ, ◌≤◌, ◌<◌, ◌≡◌, refl, ap, sym, some, List, [], ◌∷◌, ◌++◌, ◌==◌, arith, Bool-cases, inl, inr,
}
use pingkv.IoBuf.{Block, new_block, back, set_back, ready}
use pingkv.IoBuf.Queue.{stored, Blocks, Behind, stored-push}

pub back-append : (xs : List Block) (b : Block) → back (xs ++ b ∷ []) ≡ some b
unfolding back
back-append [] b = refl
back-append (x ∷ []) b = refl
back-append (x ∷ y ∷ xs) b = back-append (y ∷ xs) b

pub set_back-append : (xs : List Block) (b c : Block) → set_back (xs ++ b ∷ []) c ≡ xs ++ c ∷ []
unfolding set_back
set_back-append [] b c = refl
set_back-append (x ∷ []) b c = refl
set_back-append (x ∷ y ∷ xs) b c = ap (◌∷◌ x) (set_back-append (y ∷ xs) b c)

Behind-set :
    (n : ℕ) (xs : List Block) (b c : Block)
    → Behind n (xs ++ b ∷ [])
    → c.r_offset ≡ b.r_offset
    → c.w_offset ≤ n
    → Behind n (xs ++ c ∷ [])
Behind-set n [] b c h e lt = omega arith
Behind-set n (x ∷ []) b c h e lt = omega arith
Behind-set n (x ∷ y ∷ xs) b c (hr, hw, h) e lt = (hr, hw, Behind-set n (y ∷ xs) b c h e lt)

pub Blocks-set :
    (n : ℕ) (xs : List Block) (b c : Block)
    → Blocks n (xs ++ b ∷ [])
    → c.r_offset ≡ b.r_offset
    → b.w_offset ≤ c.w_offset
    → c.w_offset ≤ n
    → Blocks n (xs ++ c ∷ [])
Blocks-set n [] b c h e le lt = omega arith
Blocks-set n (x ∷ []) b c h e le lt = omega arith
Blocks-set n (x ∷ y ∷ xs) b c (hr, hw, h) e le lt = (hr, hw, Behind-set n (y ∷ xs) b c h e lt)

Behind-push :
    (n : ℕ) (bs : List Block) (b : Block)
    → back bs ≡ some b
    → b.w_offset ≡ n
    → Behind n bs
    → Behind n (bs ++ new_block ∷ [])
unfolding back
Behind-push n [] b e full h = omega arith
Behind-push n (x ∷ []) b e full h = (ground arith, ground arith, ground arith)
Behind-push n (x ∷ y ∷ xs) b e full (hr, hw, h) = (hr, hw, Behind-push n (y ∷ xs) b e full h)

Blocks-push :
    (n : ℕ) (bs : List Block) (b : Block)
    → back bs ≡ some b
    → b.w_offset ≡ n
    → Blocks n bs
    → Blocks n (bs ++ new_block ∷ [])
unfolding back
Blocks-push n [] b e full h = omega arith
Blocks-push n (x ∷ []) b e full h = (ground arith, ground arith, ground arith)
Blocks-push n (x ∷ y ∷ xs) b e full (hr, hw, h) = (hr, hw, Behind-push n (y ∷ xs) b e full h)

-- A queue with a last block is what stands before it and that block.
unsnoc : (bs : List Block) (b : Block) → back bs ≡ some b → (xs : List Block) × (bs ≡ xs ++ b ∷ [])
unfolding back
unsnoc [] b e = absurd (cc)
unsnoc (x ∷ []) b e = ([], ground arith)
unsnoc (x ∷ y ∷ xs) b e = let (zs, p) = unsnoc (y ∷ xs) b e in (x ∷ zs, ap (◌∷◌ x) p)

back-cons : (b : Block) (bs : List Block) → (c : Block) × (back (b ∷ bs) ≡ some c)
unfolding back
back-cons b [] = (b, refl)
back-cons b (c ∷ bs) = back-cons c bs

Blocks-last :
    (n : ℕ) (xs : List Block) (b : Block)
    → Blocks n (xs ++ b ∷ [])
    → (b.r_offset ≤ b.w_offset) × (b.w_offset ≤ n)
Blocks-last n [] b h = h
Blocks-last n (x ∷ xs) b h = behind xs (tail xs h)
  where
    tail : (xs : List Block) → Blocks n (x ∷ (xs ++ b ∷ [])) → Behind n (xs ++ b ∷ [])
    tail [] h = h.2
    tail (y ∷ ys) h = h.2

    behind :
        (xs : List Block) → Behind n (xs ++ b ∷ []) → (b.r_offset ≤ b.w_offset) × (b.w_offset ≤ n)
    behind [] h = omega arith
    behind (y ∷ []) h = behind [] h.2
    behind (y ∷ z ∷ ys) h = behind (z ∷ ys) h.2

-- What `w_ptr` and `w_len` leave behind: a last block with room, and the same bytes stored.
pub record Room (n : ℕ) (bs : List Block) (xs : List Block) (b : Block) : Type 0 where
  pub shape : ready n bs ≡ xs ++ b ∷ []
  pub blocks : Blocks n (xs ++ b ∷ [])
  pub same : stored (xs ++ b ∷ []) ≡ stored bs
  pub room : b.w_offset < n
  pub order : b.r_offset ≤ b.w_offset

pub ready-Room :
    (n : ℕ) (bs : List Block)
    → 0 < n
    → Blocks n bs
    → (xs : List Block) × (b : Block) × Room n bs xs b
unfolding ready
ready-Room n [] p h = (
  [],
  new_block,
  record {
    shape = refl;
    blocks = omega arith;
    same = stored-push [];
    room = p;
    order = omega arith;
  },
)
ready-Room n (c ∷ bs) p h =
    let (b, e) = back-cons c bs in
    elim (Bool-cases (b.w_offset == n)) [
      | inl full ↦ (
        c ∷ bs,
        new_block,
        record {
          shape = rw (e, ready, full);
          blocks = Blocks-push n (c ∷ bs) b e (ground arith) h;
          same = stored-push (c ∷ bs);
          room = p;
          order = omega arith;
        },
      )
      | inr open_ ↦
          let (xs, s) = unsnoc (c ∷ bs) b e in
          let h' : Blocks n (xs ++ b ∷ []) = subst (Blocks n) s h in
          (
            xs,
            b,
            record {
              shape = rw (e, ready, open_) s;
              blocks = h';
              same = ap stored (sym s);
              room = let (_, le) = Blocks-last n xs b h' in ground arith;
              order = (Blocks-last n xs b h').0;
            },
          )
    ]
