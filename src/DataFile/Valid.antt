-- ===== src/DataFile/Valid.antt =====
-- data_file_block.cc: the invariant of a data file, and `_extend_file` under it.
use pingkv.Base.{
  ℕ, zero, suc, ◌+◌, ◌≤◌, ◌<◌, ◌≡◌, refl, ◌∙◌, Bool, true, none, some, List, [], leb, ◌==◌,
  if◌then◌else◌, arith, Bool-cases, inl, inr, ==→eq,
}
use pingkv.DataFile.{
  DataBlock, FileInfo, DataFile, Os, ok, M, store, update, ignore, pure, max_block,
}
use pingkv.DataFile.Block.{last_offset, format_block, extend_loop, extend_file}
use pingkv.DataFile.Layout.{IsLaidOut}
use pingkv.DataFile.Growth.{Grown-refl}
use pingkv.DataFile.Stored.{Ext, Maps, with_cache}

-- Every block from 2 to the end of the file is formatted and laid out, those behind the block that
-- is written to are empty, nothing lies behind the end, and each block can be mapped at its offset.
pub record IsValid (d : DataFile) : Type 0 where
  pub used_low : 2 ≤ d.info.used_block_count
  pub used_high : d.info.used_block_count ≤ d.info.block_count
  pub small : d.info.block_count ≤ max_block
  pub known :
      (id : ℕ)
      → 2 ≤ id
      → id ≤ d.info.block_count
      → (b : DataBlock) × (d.blocks id ≡ some b) × IsLaidOut b × (b.block_id ≡ id)
  pub fresh :
      (id : ℕ) (b : DataBlock)
      → d.info.used_block_count < id
      → d.blocks id ≡ some b
      → b.records ≡ []
  pub beyond : (id : ℕ) → d.info.block_count < id → d.blocks id ≡ none

-- Every block can be mapped, and the file can be extended.
pub record Works (os : Os) : Type 0 where
  pub maps : Maps os
  pub extends : (id : ℕ) → os.write_block id ≡ true

-- The system calls that a write needs succeed.
module _ (os : Os) (works : Works os) where
  -- `d'` is `d` with blocks added behind the end, or with a later block in use.
  pub record Later (d d' : DataFile) : Type 0 where
    pub valid : IsValid d'
    pub same : (id : ℕ) → id ≤ d.info.block_count → d'.blocks id ≡ d.blocks id
    pub used : d.info.used_block_count ≤ d'.info.used_block_count
    pub count : d.info.block_count ≤ d'.info.block_count

  pub format_block-IsLaidOut : (id : ℕ) → IsLaidOut (format_block os id)
  unfolding format_block last_offset
  format_block-IsLaidOut id = record { descending = tt; apart = omega arith }

  -- One round of the loop of `_extend_file`.
  abbrev pub extended : DataFile → DataFile
  extended d = record d {
    blocks = update d.blocks (d.info.block_count + 1) (format_block os (d.info.block_count + 1));
    info = record (d.info) { block_count = d.info.block_count + 1 };
  }

  extended-IsValid :
      (d : DataFile) → IsValid d → d.info.block_count < max_block → IsValid (extended d)
  unfolding update format_block
  extended-IsValid d v lt = record {
    used_low = v.used_low;
    used_high = omega (arith, v.used_high);
    small = omega arith;
    known = λ id lo hi. elim (Bool-cases (id == d.info.block_count + 1)) [
      | inl new ↦
          (format_block os id, ground (arith, ==→eq _ _ new), format_block-IsLaidOut id, refl)
      | inr old ↦ let (b, e, l, i) = v.known id lo (ground arith) in (b, rw old e, l, i)
    ];
    fresh = λ id b gt e. elim (Bool-cases (id == d.info.block_count + 1)) [
      | inl new ↦ ground arith
      | inr old ↦ v.fresh id b gt (rw old at e)
    ];
    beyond = λ id gt. ground (arith, v.beyond id (omega arith));
  }

  pub Later-refl : (d : DataFile) → IsValid d → Later d d
  Later-refl d v = record {
    valid = v;
    same = λ id le. refl;
    used = omega arith;
    count = omega arith;
  }

  pub Later-trans : {d e f : DataFile} → Later d e → Later e f → Later d f
  Later-trans l m = record {
    valid = m.valid;
    same = λ id le. m.same id (omega (arith, l.count)) ∙ l.same id le;
    used = omega (arith, l.used, m.used);
    count = omega (arith, l.count, m.count);
  }

  -- Only the cache differs.
  pub Later-cache : (d : DataFile) (c : List (ℕ × Bool)) → IsValid d → Later d (with_cache d c)
  Later-cache d c v = record {
    valid = record {
      used_low = v.used_low;
      used_high = v.used_high;
      small = v.small;
      known = v.known;
      fresh = v.fresh;
      beyond = v.beyond;
    };
    same = λ id le. refl;
    used = omega arith;
    count = omega arith;
  }

  -- Blocks that stay as they are, and blocks behind the end, are an extension.
  pub Later-Ext : {d d' : DataFile} → IsValid d → Later d d' → Ext d.blocks d'.blocks
  Later-Ext {d} v l = record {
    grown = λ id {b} e. elim (Bool-cases (leb id d.info.block_count)) [
      | inl inside ↦ (b, l.same id (ground arith) ∙ e, Grown-refl b)
      | inr outside ↦ absurd (cc (v.beyond id (ground arith)))
    ];
  }

  extended-Later :
      (d : DataFile) → IsValid d → d.info.block_count < max_block → Later d (extended d)
  unfolding update
  extended-Later d v lt = record {
    valid = extended-IsValid d v lt;
    same = λ id le. ground arith;
    used = omega arith;
    count = omega arith;
  }

  -- The loop formats `k` blocks behind the end of the file.
  extend_loop-Later :
      (k : ℕ) (d : DataFile)
      → IsValid d
      → d.info.block_count + k ≤ max_block
      → (d' : DataFile) × (extend_loop os k (d.info.block_count + 1) d ≡ ok tt d')
        × Later d d'
        × (d'.info.used_block_count ≡ d.info.used_block_count)
        × (d'.info.block_count ≡ d.info.block_count + k)
  unfolding extend_loop store
  extend_loop-Later zero d v le = (d, refl, Later-refl d v, refl, omega arith)
  extend_loop-Later (suc k) d v le =
      let (d', e, l, u, n) =
        extend_loop-Later k (extended d) (extended-IsValid d v (omega arith)) (omega arith) in
      (
        d',
        rw (works.extends (d.info.block_count + 1)) e,
        Later-trans (extended-Later d v (omega arith)) l,
        u,
        omega (arith, n),
      )

  -- The first step of `_find_block_can_write`: afterwards there is a block behind the used ones.
  unfoldable pub grow_if_full : FileInfo → M (Unit {0})
  grow_if_full i =
      if i.used_block_count == i.block_count then ignore (extend_file os 128) else pure tt

  pub grow_if_full-Later :
      (d : DataFile)
      → IsValid d
      → d.info.used_block_count + 128 ≤ max_block
      → (d' : DataFile) × (grow_if_full d.info d ≡ ok tt d')
        × Later d d'
        × (d'.info.used_block_count ≡ d.info.used_block_count)
        × (d'.info.used_block_count < d'.info.block_count)
  unfolding grow_if_full extend_file
  grow_if_full-Later d v le = elim (Bool-cases (d.info.used_block_count == d.info.block_count)) [
    | inl full ↦
        let (d', e, l, u, n) = extend_loop-Later 128 d v (omega (arith, ==→eq _ _ full)) in
        (d', rw (full, e), l, u, omega (arith, ==→eq _ _ full))
    | inr room ↦ (d, rw room, Later-refl d v, refl, ground (arith, v.used_high))
  ]
