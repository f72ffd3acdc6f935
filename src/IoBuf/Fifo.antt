-- ===== src/IoBuf/Fifo.antt =====
-- kv_io_buf.cc: the writer, against a queue of bytes.
use pingkv.Base.{
  ℕ, ◌+◌, ◌-◌, ◌≤◌, ◌<◌, ◌≡◌, refl, sym, false, some, List, [], ◌∷◌, ◌++◌, Bytes, length, ◌==◌,
  arith, append_assoc, append-nil,
}
use pingkv.Base.Memory.{blit}
use pingkv.IoBuf.{IoBuf, Block, ready, w_len, fill_w_ptr, add_w_offset, produce}
use pingkv.IoBuf.Queue.{stored, pending, contents, IsValid, stored-append, pending-extend}
use pingkv.IoBuf.Back.{Room, ready-Room, back-append, set_back-append, Blocks-set}

-- With room in the last block `ready` changes nothing.
ready_again :
    (n : ℕ) (xs : List Block) (b : Block) → b.w_offset < n → ready n (xs ++ b ∷ []) ≡ xs ++ b ∷ []
unfolding ready
ready_again n xs b h =
    let e : (b.w_offset == n) ≡ false = ground arith in rw (back-append xs b, ready, e)

-- The last block after the writer has put `xs` into it.
abbrev written : Block → Bytes → Block
written b xs = record b { buf = blit b.buf b.w_offset xs; w_offset = b.w_offset + length xs }

module _ (io : IoBuf) (xs : List Block) (b : Block) (r : Room io.block_size io.blocks xs b) where
  w_len_room : w_len io ≡ (record io { blocks = xs ++ b ∷ [] }, io.block_size - b.w_offset)
  unfolding w_len
  w_len_room = rw (r.shape, w_len, back-append xs b)

  fill_room :
      (ys : Bytes)
      → fill_w_ptr (record io { blocks = xs ++ b ∷ [] }) ys
        ≡ record io { blocks = xs ++ record b { buf = blit b.buf b.w_offset ys } ∷ [] }
  unfolding fill_w_ptr
  fill_room ys = ground (
    arith,
    ready_again io.block_size xs b r.room,
    back-append xs b,
    set_back-append xs b (record b { buf = blit b.buf b.w_offset ys }),
  )

  produce_room :
      (ys : Bytes)
      → length ys ≤ io.block_size - b.w_offset
      → produce io ys ≡ some (record io { blocks = xs ++ written b ys ∷ [] })
  unfolding produce add_w_offset
  produce_room ys h =
      let c : Block = record b { buf = blit b.buf b.w_offset ys } in
      ground
        (arith, w_len_room, fill_room ys, back-append xs c, set_back-append xs c (written b ys))

  room_written :
      (ys : Bytes)
      → length ys ≤ io.block_size - b.w_offset
      → IsValid io
      → IsValid (record io { blocks = xs ++ written b ys ∷ [] })
  room_written ys h v = record {
    positive = v.positive;
    small = v.small;
    blocks =
        Blocks-set io.block_size xs b (written b ys) r.blocks refl (omega arith)
          (omega (arith, r.room));
  }

  stored_written : (ys : Bytes) → stored (xs ++ written b ys ∷ []) ≡ stored io.blocks ++ ys
  unfolding stored
  stored_written ys =
      rw
        (
          ← r.same,
          stored-append,
          stored-append,
          append-nil,
          append-nil,
          pending-extend b ys r.order,
        )
        (sym (append_assoc (stored xs) (pending b) ys))

-- On a valid buffer, whose blocks have less than 2 ^ 15 bytes: when the writer gets at most `w_len`
-- bytes, the assertion of `add_w_offset` holds, and the bytes stand behind those that were in the
-- queue. `w_len` itself is never 0.
pub produce-append :
    (io : IoBuf) (ys : Bytes)
    → IsValid io
    → length ys ≤ (w_len io).1
    → (io' : IoBuf) × (produce io ys ≡ some io')
      × IsValid io'
      × (contents io' ≡ contents io ++ ys)
      × (io'.block_size ≡ io.block_size)
      × (0 < (w_len io).1)
unfolding contents
produce-append io ys v h =
    let (xs, b, r) = ready-Room io.block_size io.blocks v.positive v.blocks in
    let e = w_len_room io xs b r in
    let h' : length ys ≤ io.block_size - b.w_offset = rw e at h in
    (
      record io { blocks = xs ++ written b ys ∷ [] },
      produce_room io xs b r ys h',
      room_written io xs b r ys h' v,
      stored_written io xs b r ys,
      refl,
      rw e (omega (arith, r.room)),
    )
