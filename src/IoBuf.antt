-- ===== src/IoBuf.antt =====
-- pingkv/src/server/kv_io_buf.h and kv_io_buf.cc: a byte queue over a queue of blocks of one size.
-- A method returns the new buffer and its result; `none` is a call that is undefined: a failed
-- assertion, `front()` or `back()` of no block, or the endless recursion of `r_len` on blocks of
-- no bytes. Offsets are `short` in the source and numbers here: `IsValid` bounds them by the block
-- size, and the block size by 32767, so that they do not wrap (the default is 8192). What a new
-- block holds before it is written is not specified by the source; no method reads it.
pub mod Queue
pub mod Back
pub mod Fifo
pub mod Reader
mod Tests
use pingkv.Base.{
  ℕ, zero, suc, ◌+◌, ◌-◌, ◌*◌, Bool, true, false, Option, none, some, List, [], ◌∷◌, ◌++◌, Bytes,
  length, ltb, leb, ◌==◌, if◌then◌else◌,
}
use pingkv.Base.Memory.{Memory, slice, blit}

-- `kv_io_buf::block`
pub record Block : Type 0 where
  pub buf : Memory
  pub r_offset : ℕ
  pub w_offset : ℕ

pub record IoBuf : Type 0 where
  pub block_size : ℕ
  pub blocks : List Block

abbrev pub new_block : Block
new_block = record { buf = λ _. 0; r_offset = 0; w_offset = 0 }

-- The constructor with a size.
abbrev pub make : ℕ → IoBuf
make size = record { block_size = size; blocks = [] }

-- `_blocks.back()`
unfoldable pub back : List Block → Option Block
back [] = none
back (b ∷ []) = some b
back (b ∷ c ∷ bs) = back (c ∷ bs)

-- The queue with the last block changed in place.
unfoldable pub set_back : List Block → Block → List Block
set_back [] c = []
set_back (b ∷ []) c = c ∷ []
set_back (b ∷ b' ∷ bs) c = b ∷ set_back (b' ∷ bs) c

-- `_push_new_block`, on the queue.
abbrev pub push_new_block : List Block → List Block
push_new_block bs = bs ++ new_block ∷ []

-- `_del_queue_front`
abbrev pub del_queue_front : List Block → List Block
del_queue_front [] = []
del_queue_front (b ∷ bs) = bs

-- The blocks between the first and the last, as the source computes their number.
pub size_of : ℕ → List Block → ℕ
unfolding back
size_of size [] = 0
size_of size (r ∷ []) = r.w_offset - r.r_offset
size_of size (r ∷ c ∷ bs) =
    (size - r.r_offset)
    + (elim (back (c ∷ bs)) [ none ↦ 0 | some w ↦ w.w_offset ])
    + (length (r ∷ c ∷ bs) - 2) * size

unfoldable pub size : IoBuf → ℕ
unfolding size_of
size io = size_of io.block_size io.blocks

-- The recursion of `r_len`: blocks that have been read to their end are dropped.
pub r_len_from : ℕ → List Block → Option (List Block × ℕ)
r_len_from size [] = if size == 0 then none else some (new_block ∷ [], 0)
r_len_from size (b ∷ bs) =
    let rest = r_len_from size bs in
    if b.r_offset == size then rest else some (b ∷ bs, b.w_offset - b.r_offset)

unfoldable pub r_len : IoBuf → Option (IoBuf × ℕ)
unfolding r_len_from
r_len io = elim (r_len_from io.block_size io.blocks) [
  | none ↦ none
  | some (bs, n) ↦ some (record io { blocks = bs }, n)
]

-- The blocks after `w_ptr` or `w_len`: the last one has room, unless blocks have no bytes.
pub ready : ℕ → List Block → List Block
unfolding back
ready size bs = elim (back bs) [
  | none ↦ push_new_block bs
  | some b ↦ if b.w_offset == size then push_new_block bs else bs
]

unfoldable pub w_len : IoBuf → IoBuf × ℕ
unfolding ready
w_len io =
    let bs = ready io.block_size io.blocks in
    (record io { blocks = bs }, elim (back bs) [ none ↦ 0 | some b ↦ io.block_size - b.w_offset ])

-- `w_ptr` and a write of the caller through it: `read(fd, buf->w_ptr(), …)` fills that place.
unfoldable pub fill_w_ptr : IoBuf → Bytes → IoBuf
unfolding ready
fill_w_ptr io xs =
    let bs = ready io.block_size io.blocks in
    elim (back bs) [
      | none ↦ record io { blocks = bs }
      | some b ↦ record io { blocks = set_back bs (record b { buf = blit b.buf b.w_offset xs }) }
    ]

-- `r_ptr` and a read of `n` bytes of the caller through it.
unfoldable pub read_r_ptr : IoBuf → ℕ → IoBuf × Bytes
unfolding slice
read_r_ptr io n = elim io.blocks [
  | [] ↦ (record io { blocks = new_block ∷ [] }, slice new_block.buf 0 n)
  | b ∷ bs ↦ (io, slice b.buf b.r_offset n)
]

unfoldable pub add_r_offset : IoBuf → ℕ → Option IoBuf
add_r_offset io add = elim io.blocks [
  | [] ↦ none
  | b ∷ bs ↦
      let b' : Block = record b { r_offset = b.r_offset + add } in
      if leb add (b.w_offset - b.r_offset)
      then some (record io { blocks = if b'.r_offset == io.block_size then bs else b' ∷ bs })
      else none
]

unfoldable pub add_w_offset : IoBuf → ℕ → Option IoBuf
add_w_offset io add = elim (back io.blocks) [
  | none ↦ none
  | some b ↦
      if leb add (io.block_size - b.w_offset)
      then some
          (record io { blocks = set_back io.blocks (record b { w_offset = b.w_offset + add }) })
      else none
]

-- What the users of the buffer do: `len = read(fd, buf->w_ptr(), buf->w_len())` that delivers the
-- bytes `xs`, and `buf->add_w_offset(len)`.
unfoldable pub produce : IoBuf → Bytes → Option IoBuf
produce io xs = add_w_offset (fill_w_ptr (w_len io).0 xs) (length xs)

-- `len = write(fd, buf->r_ptr(), buf->r_len())` that takes `n` bytes, and `buf->add_r_offset(len)`.
unfoldable pub consume : IoBuf → ℕ → Option (IoBuf × Bytes)
consume io n = elim (r_len io) [
  | none ↦ none
  | some (io', len) ↦
      let (io'', xs) = read_r_ptr io' n in
      elim (add_r_offset io'' n) [ none ↦ none | some io''' ↦ some (io''', xs) ]
]
