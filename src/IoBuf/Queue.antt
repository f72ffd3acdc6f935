-- ===== src/IoBuf/Queue.antt =====
-- kv_io_buf.cc: the bytes that a buffer holds, its invariant, and `size`.
use pingkv.Base.{
  ℕ, ◌+◌, ◌-◌, ◌*◌, ◌≤◌, ◌<◌, ◌≡◌, refl, none, some, List, [], ◌∷◌, ◌++◌, Bytes, length, arith,
  append_assoc, append-nil, length-append,
}
use pingkv.Base.Memory.{slice, blit, length-slice, slice_add, slice-blit_self, slice-blit_below}
use pingkv.IoBuf.{Block, IoBuf, new_block, back, set_back, size, size_of}

-- The bytes written to a block and not yet read.
unfoldable pub pending : Block → Bytes
pending b = slice b.buf b.r_offset (b.w_offset - b.r_offset)

unfoldable pub stored : List Block → Bytes
unfolding pending
stored [] = []
stored (b ∷ bs) = pending b ++ stored bs

-- The abstract view: the queue of bytes, oldest first.
unfoldable pub contents : IoBuf → Bytes
unfolding stored
contents io = stored io.blocks

-- Every block but the last is full, and every block but the first is unread.
abbrev pub Behind : ℕ → List Block → Type 0
Behind size [] = Unit {0}
Behind size (b ∷ []) = (b.r_offset ≡ 0) × (b.w_offset ≤ size)
Behind size (b ∷ c ∷ bs) = (b.r_offset ≡ 0) × (b.w_offset ≡ size) × Behind size (c ∷ bs)

abbrev pub Blocks : ℕ → List Block → Type 0
Blocks size [] = Unit {0}
Blocks size (b ∷ []) = (b.r_offset ≤ b.w_offset) × (b.w_offset ≤ size)
Blocks size (b ∷ c ∷ bs) = (b.r_offset ≤ size) × (b.w_offset ≡ size) × Behind size (c ∷ bs)

pub record IsValid (io : IoBuf) : Type 0 where
  pub positive : 0 < io.block_size
  pub small : io.block_size < 32768
  pub blocks : Blocks io.block_size io.blocks

length-pending : (b : Block) → length (pending b) ≡ b.w_offset - b.r_offset
unfolding pending
length-pending b = length-slice b.buf b.r_offset (b.w_offset - b.r_offset)

length-Behind :
    (n : ℕ) (b : Block) (bs : List Block)
    → Behind n (b ∷ bs)
    → length (stored (b ∷ bs))
      ≡ (elim (back (b ∷ bs)) [ none ↦ 0 | some w ↦ w.w_offset ]) + length bs * n
unfolding stored back
length-Behind n b [] h = omega (arith, length-append (pending b) [], length-pending b)
length-Behind n b (c ∷ bs) (h, e, t) =
    omega
      (arith, length-append (pending b) (stored (c ∷ bs)), length-pending b, length-Behind n c bs t)

-- For a valid buffer, `size` is the number of bytes in the queue.
pub size-contents : (io : IoBuf) → IsValid io → size io ≡ length (contents io)
unfolding size contents stored
size-contents io v = sizes io.blocks v.blocks
  where
    sizes :
        (bs : List Block) → Blocks io.block_size bs → size_of io.block_size bs ≡ length (stored bs)
    sizes [] h = refl
    sizes (b ∷ []) h = omega (arith, length-append (pending b) [], length-pending b)
    sizes (b ∷ c ∷ bs) h =
        let e : length (b ∷ c ∷ bs) - 2 ≡ length bs = omega arith in
        rw e (
          omega (
            arith,
            length-append (pending b) (stored (c ∷ bs)),
            length-pending b,
            length-Behind io.block_size c bs h.2,
          ))

-- Appending bytes at the end of the last block.
abbrev pub extend_back : List Block → Bytes → List Block
extend_back bs xs = elim (back bs) [
  | none ↦ bs
  | some b ↦
      set_back bs (record b { buf = blit b.buf b.w_offset xs; w_offset = b.w_offset + length xs })
]

pub pending-extend :
    (b : Block) (xs : Bytes)
    → b.r_offset ≤ b.w_offset
    → pending (record b { buf = blit b.buf b.w_offset xs; w_offset = b.w_offset + length xs })
      ≡ pending b ++ xs
unfolding pending
pending-extend b xs h =
    let e : b.w_offset + length xs - b.r_offset ≡ (b.w_offset - b.r_offset) + length xs =
      omega arith in
    let e' : b.r_offset + (b.w_offset - b.r_offset) ≡ b.w_offset = omega arith in
    rw (
      e,
      slice_add,
      e',
      slice-blit_self,
      slice-blit_below b.buf b.w_offset xs b.r_offset (b.w_offset - b.r_offset) (omega arith),
    )

pub stored-append : (bs cs : List Block) → stored (bs ++ cs) ≡ stored bs ++ stored cs
unfolding stored
stored-append [] cs = refl
stored-append (b ∷ bs) cs = simp (stored-append bs, append_assoc)

-- Adding a fresh block stores nothing.
pub stored-push : (bs : List Block) → stored (bs ++ new_block ∷ []) ≡ stored bs
unfolding stored pending slice
stored-push bs = rw (stored-append, append-nil)
