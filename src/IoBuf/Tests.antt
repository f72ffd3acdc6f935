-- ===== src/IoBuf/Tests.antt =====
-- A buffer with blocks of four bytes that wraps from block to block, and the theorems at it.
use pingkv.Base.{
  ℕ, ◌+◌, ◌≤◌, ◌<◌, ◌≡◌, refl, some, [], ◌∷◌, ◌++◌, Bytes, Option, length, arith, none, codes,
}
use pingkv.Base.Memory.{slice, blit}
use pingkv.IoBuf.{
  IoBuf, back, set_back, size, r_len, w_len, fill_w_ptr, read_r_ptr, add_r_offset, add_w_offset,
  produce, consume,
}
use pingkv.IoBuf.Queue.{contents, IsValid}
use pingkv.IoBuf.Fifo.{produce-append}
use pingkv.IoBuf.Reader.{consume-take}

program : Unit {0}
unfolding slice blit back set_back size r_len w_len fill_w_ptr read_r_ptr add_r_offset add_w_offset
    produce consume
program = tt

-- A buffer whose first block is full and half read, and whose second block holds one byte.
abbrev two_blocks : IoBuf
two_blocks = record {
  block_size = 4;
  blocks =
      record { buf = λ i. 97 + i; r_offset = 2; w_offset = 4 }
      ∷ record { buf = λ _. 101; r_offset = 0; w_offset = 1 }
      ∷ [];
}

two_blocks-IsValid : IsValid two_blocks
two_blocks-IsValid = omega arith

size_two : size two_blocks ≡ 3
unfolding program
size_two = refl

abbrev after : Option (IoBuf × Bytes) → Bytes
after none = []
after (some (io, xs)) = xs

read_two : after (consume two_blocks 2) ≡ codes "cd"
unfolding program
read_two = refl

produce-append_example :
    (io' : IoBuf) × (produce two_blocks (codes "fg") ≡ some io')
    × IsValid io'
    × (contents io' ≡ contents two_blocks ++ codes "fg")
    × (io'.block_size ≡ 4)
    × (0 < (w_len two_blocks).1)
unfolding w_len back
produce-append_example = produce-append two_blocks (codes "fg") two_blocks-IsValid (omega arith)

consume-take_example :
    (io₁ : IoBuf) × (len : ℕ) × (r_len two_blocks ≡ some (io₁, len))
    × (len ≡ 0 → contents two_blocks ≡ [])
    × ((k : ℕ)
        → k ≤ len
        → (io₂ : IoBuf) × (xs : Bytes) × (consume two_blocks k ≡ some (io₂, xs))
          × IsValid io₂
          × (length xs ≡ k)
          × (contents two_blocks ≡ xs ++ contents io₂))
consume-take_example = consume-take two_blocks two_blocks-IsValid
