-- ===== src/IoBuf/Reader.antt =====
-- kv_io_buf.cc: the reader, against a queue of bytes.
use pingkv.Base.{
  ℕ, ◌+◌, ◌-◌, ◌≤◌, ◌<◌, ◌≡◌, refl, ◌∙◌, sym, some, List, [], ◌∷◌, ◌++◌, Bytes, length, ◌==◌,
  if◌then◌else◌, arith, Bool-cases, append_assoc, append-nil, inl, inr, ==→eq,
}
use pingkv.Base.Memory.{slice, length-slice, slice_add}
use pingkv.IoBuf.{IoBuf, Block, new_block, add_r_offset, read_r_ptr, r_len, r_len_from, consume}
use pingkv.IoBuf.Queue.{stored, pending, contents, Blocks, Behind, IsValid}

Blocks_of_Behind : (n : ℕ) (bs : List Block) → Behind n bs → Blocks n bs
Blocks_of_Behind n [] h = tt
Blocks_of_Behind n (b ∷ []) h = omega arith
Blocks_of_Behind n (b ∷ c ∷ bs) (hr, hw, h) = (omega arith, hw, h)

pending_empty : (b : Block) → b.w_offset ≤ b.r_offset → pending b ≡ []
unfolding pending slice
pending_empty b h = let e : b.w_offset - b.r_offset ≡ 0 = omega arith in rw e

-- The block that the reader works in, after `r_len`.
record Front (n : ℕ) (bs : List Block) (b : Block) (cs : List Block) : Type 0 where
  len : r_len_from n bs ≡ some (b ∷ cs, b.w_offset - b.r_offset)
  blocks : Blocks n (b ∷ cs)
  same : stored (b ∷ cs) ≡ stored bs
  unread : b.r_offset < n

r_len-Front :
    (n : ℕ) (bs : List Block)
    → 0 < n
    → Blocks n bs
    → (b : Block) × (cs : List Block) × Front n bs b cs
unfolding r_len_from stored
r_len-Front n [] p h = (
  new_block,
  [],
  record {
    len = ground arith;
    blocks = omega arith;
    same = rw (pending_empty new_block (omega arith));
    unread = p;
  },
)
r_len-Front n (b ∷ []) p h = elim (Bool-cases (b.r_offset == n)) [
  | inl done ↦ (
    new_block,
    [],
    record {
      len = ground arith;
      blocks = omega arith;
      same = rw (pending_empty new_block (omega arith), pending_empty b (ground arith));
      unread = p;
    },
  )
  | inr more ↦ (b, [], record { len = rw more; blocks = h; same = refl; unread = ground arith })
]
r_len-Front n (b ∷ c ∷ cs) p (hr, hw, h) = elim (Bool-cases (b.r_offset == n)) [
  | inl done ↦
      let first : c.r_offset ≡ 0 = zero_first cs h in
      (
        c,
        cs,
        record {
          len = ground arith;
          blocks = Blocks_of_Behind n (c ∷ cs) h;
          same = rw (pending_empty b (ground arith));
          unread = omega arith;
        },
      )
  | inr more ↦ (
    b,
    c ∷ cs,
    record { len = rw more; blocks = (hr, hw, h); same = refl; unread = ground arith },
  )
]
  where
    zero_first : (cs : List Block) → Behind n (c ∷ cs) → c.r_offset ≡ 0
    zero_first [] h = h.0
    zero_first (d ∷ ds) h = h.0

Blocks-tail : (n : ℕ) (b : Block) (cs : List Block) → Blocks n (b ∷ cs) → Blocks n cs
Blocks-tail n b [] h = tt
Blocks-tail n b (c ∷ cs) h = Blocks_of_Behind n (c ∷ cs) h.2

Blocks-order :
    (n : ℕ) (b : Block) (cs : List Block)
    → Blocks n (b ∷ cs)
    → (b.r_offset ≤ b.w_offset) × (b.w_offset ≤ n)
Blocks-order n b [] h = h
Blocks-order n b (c ∷ cs) h = omega arith

Blocks-advance :
    (n k : ℕ) (b : Block) (cs : List Block)
    → Blocks n (b ∷ cs)
    → b.r_offset + k ≤ b.w_offset
    → Blocks n (record b { r_offset = b.r_offset + k } ∷ cs)
Blocks-advance n k b [] h le = omega arith
Blocks-advance n k b (c ∷ cs) (hr, hw, h) le = (omega arith, hw, h)

-- Reading `k` bytes of a block.
pending_split :
    (b : Block) (k : ℕ)
    → b.r_offset + k ≤ b.w_offset
    → pending b ≡ slice b.buf b.r_offset k ++ pending (record b { r_offset = b.r_offset + k })
unfolding pending
pending_split b k h =
    let e : b.w_offset - b.r_offset ≡ k + (b.w_offset - (b.r_offset + k)) = omega arith in
    rw e (slice_add b.buf b.r_offset k (b.w_offset - (b.r_offset + k)))

nothing_pending :
    (n : ℕ) (b : Block) (cs : List Block)
    → Blocks n (b ∷ cs)
    → b.r_offset < n
    → b.w_offset ≤ b.r_offset
    → stored (b ∷ cs) ≡ []
unfolding stored
nothing_pending n b [] h lt le = rw (pending_empty b le)
nothing_pending n b (c ∷ cs) h lt le = absurd (omega arith)

-- What is left of the blocks after the reader has moved.
abbrev advanced : ℕ → Block → List Block → ℕ → List Block
advanced n b cs k = if b.r_offset + k == n then cs else record b { r_offset = b.r_offset + k } ∷ cs

module _ (io : IoBuf) (b : Block) (cs : List Block) (f : Front io.block_size io.blocks b cs) (k : ℕ)
    (le : k ≤ b.w_offset - b.r_offset) where
  r_len_front : r_len io ≡ some (record io { blocks = b ∷ cs }, b.w_offset - b.r_offset)
  unfolding r_len
  r_len_front = ground (arith, f.len)

  consume_front :
      consume io k
      ≡ some (record io { blocks = advanced io.block_size b cs k }, slice b.buf b.r_offset k)
  unfolding consume read_r_ptr add_r_offset
  consume_front = ground (arith, r_len_front)

  stored_front :
      stored io.blocks ≡ slice b.buf b.r_offset k ++ stored (advanced io.block_size b cs k)
  unfolding stored
  stored_front =
      let (order, _) = Blocks-order io.block_size b cs f.blocks in
      let split = pending_split b k (omega arith) in
      elim (Bool-cases (b.r_offset + k == io.block_size)) [
        | inl done ↦
            let rest =
              pending_empty (record b { r_offset = b.r_offset + k })
                (omega (arith, Blocks-order io.block_size b cs f.blocks, ==→eq _ _ done)) in
            rw (done, ← f.same, split, rest, append-nil)
        | inr more ↦ rw (more, ← f.same, split, append_assoc)
      ]

  Blocks_front : Blocks io.block_size (advanced io.block_size b cs k)
  Blocks_front =
      let (order, _) = Blocks-order io.block_size b cs f.blocks in
      elim (Bool-cases (b.r_offset + k == io.block_size)) [
        | inl done ↦ rw done (Blocks-tail io.block_size b cs f.blocks)
        | inr more ↦ rw more (Blocks-advance io.block_size k b cs f.blocks (omega arith))
      ]

-- On a valid buffer, whose blocks have less than 2 ^ 15 bytes: `r_len` returns, and its length is 0
-- only if the queue of bytes is empty. A reader that takes at most that many bytes gets the oldest ones, in order, the assertion of `add_r_offset` holds, and
-- exactly the other bytes stay.
pub consume-take :
    (io : IoBuf)
    → IsValid io
    → (io₁ : IoBuf) × (len : ℕ) × (r_len io ≡ some (io₁, len))
      × (len ≡ 0 → contents io ≡ [])
      × ((k : ℕ)
          → k ≤ len
          → (io₂ : IoBuf) × (xs : Bytes) × (consume io k ≡ some (io₂, xs))
            × IsValid io₂
            × (length xs ≡ k)
            × (contents io ≡ xs ++ contents io₂))
unfolding contents
consume-take io v =
    let (b, cs, f) = r_len-Front io.block_size io.blocks v.positive v.blocks in
    (
      record io { blocks = b ∷ cs },
      b.w_offset - b.r_offset,
      r_len_front io b cs f 0 (omega arith),
      λ e. sym f.same ∙ nothing_pending io.block_size b cs f.blocks f.unread (omega arith),
      λ k le. (
        record io { blocks = advanced io.block_size b cs k },
        slice b.buf b.r_offset k,
        consume_front io b cs f k le,
        record { positive = v.positive; small = v.small; blocks = Blocks_front io b cs f k le },
        length-slice b.buf b.r_offset k,
        stored_front io b cs f k le,
      ),
    )
