-- ===== src/DataFile/Room.antt =====
-- data_file_block.cc: `_find_block_can_write` on a file under the invariant.
use pingkv.Base.{
  ℕ, suc, ◌+◌, ◌-◌, ◌≤◌, ◌<◌, ◌≡◌, refl, ap, ◌∙◌, some, [], ◌==◌, arith, Bool-cases, inl, inr,
}
use pingkv.DataFile.{DataBlock, DataFile, Os, ok, load, max_block}
use pingkv.DataFile.Block.{free_bytes, find_loop, find_block_can_write, flush_file_head}
use pingkv.DataFile.Stored.{with_cache, read_block-ok}
use pingkv.DataFile.Valid.{
  IsValid, Works, Later, Later-trans, Later-cache, Later-refl, grow_if_full, grow_if_full-Later,
}

module _ (os : Os) (works : Works os) where
  -- The block `p`, which is the one in use in `d'`, has room and is laid out; if the block in use
  -- in `d` has no room, it is a later one.
  pub record Found (d d' : DataFile) (p : ℕ) : Type 0 where
    pub later : Later os works d d'
    pub block : DataBlock
    pub here : d'.blocks p ≡ some block
    pub in_use : p ≡ d'.info.used_block_count
    pub room : 0 < free_bytes block
    pub next : p ≤ d.info.used_block_count + 1
    pub moved :
        (b : DataBlock)
        → d.blocks d.info.used_block_count ≡ some b
        → free_bytes b ≡ 0
        → d.info.used_block_count < p
    pub stays :
        (b : DataBlock)
        → d.blocks d.info.used_block_count ≡ some b
        → 0 < free_bytes b
        → p ≡ d.info.used_block_count

  -- The next block is in use.
  abbrev next_used : DataFile → DataFile
  next_used d = record d {
    info = record (d.info) { used_block_count = d.info.used_block_count + 1 };
  }

  next_used-Later :
      (d : DataFile)
      → IsValid d
      → d.info.used_block_count < d.info.block_count
      → Later os works d (next_used d)
  next_used-Later d v lt = record {
    valid = record {
      used_low = omega (arith, v.used_low);
      used_high = omega arith;
      small = v.small;
      known = v.known;
      fresh = λ id b l e. v.fresh id b (omega arith) e;
      beyond = v.beyond;
    };
    same = λ id le. refl;
    used = omega arith;
    count = omega arith;
  }

  free-empty : (b : DataBlock) → b.records ≡ [] → free_bytes b ≡ 8152
  unfolding free_bytes
  free-empty b e = rw e

  find_loop-Found :
      (fuel : ℕ) (d : DataFile)
      → IsValid d
      → d.info.used_block_count < d.info.block_count
      → (d' : DataFile) × (p : ℕ) × (find_loop os (suc (suc fuel)) d.info.used_block_count d
          ≡ ok p d')
        × Found d d' p
  unfolding find_loop load flush_file_head
  find_loop-Found fuel d v lt =
      let u = d.info.used_block_count in
      let (b, e, l, i) = v.known u v.used_low v.used_high in
      elim (Bool-cases (free_bytes b == 0)) [
        | inl full ↦
            let w = next_used-Later d v lt in
            let (c, opened) =
              read_block-ok os works.maps (u + 1) (next_used d) (omega (arith, v.small)) in
            let (b', e', l', i') = v.known (u + 1) (omega (arith, v.used_low)) (omega arith) in
            let empty = free-empty b' (v.fresh (u + 1) b' (omega arith) e') in
            (
              with_cache (next_used d) c,
              u + 1,
              ground (arith, e, opened, e', empty),
              record {
                later = Later-trans os works w (Later-cache os works (next_used d) c w.valid);
                block = b';
                here = e';
                in_use = refl;
                room = omega arith;
                next = omega arith;
                moved = λ b₀ e₀ z. omega arith;
                stays = λ b₀ e₀ z.
                    let same : b₀ ≡ b = cc in
                    let none_free = ap free_bytes same in absurd (ground arith);
              },
            )
        | inr room ↦ (
          d,
          u,
          ground (arith, e, room),
          record {
            later = Later-refl os works d v;
            block = b;
            here = e;
            in_use = refl;
            room = ground arith;
            next = omega arith;
            moved = λ b₀ e₀ z. absurd (ground arith);
            stays = λ b₀ e₀ z. refl;
          },
        )
      ]

  -- In a valid file the search returns a block with room.
  pub find_block_can_write-Found :
      (d : DataFile)
      → IsValid d
      → d.info.used_block_count + 128 ≤ max_block
      → (d' : DataFile) × (p : ℕ) × (find_block_can_write os d ≡ ok p d') × Found d d' p
  unfolding find_block_can_write grow_if_full
  find_block_can_write-Found d v le =
      let (d₁, grown, l₁, same_used, lt) = grow_if_full-Later os works d v le in
      let (c, opened) =
        read_block-ok os works.maps d₁.info.used_block_count d₁ (omega (arith, le, same_used)) in
      let l₂ = Later-cache os works d₁ c l₁.valid in
      let fuel : d₁.info.block_count + 2 - d₁.info.used_block_count
          ≡ suc (suc (d₁.info.block_count - d₁.info.used_block_count)) =
        omega arith in
      let (d', p, found, f) =
        find_loop-Found (d₁.info.block_count - d₁.info.used_block_count) (with_cache d₁ c) l₂.valid
          lt in
      (
        d',
        p,
        ground (arith, grown, opened, fuel, found),
        record {
          later = Later-trans os works l₁ (Later-trans os works l₂ f.later);
          block = f.block;
          here = f.here;
          in_use = f.in_use;
          room = f.room;
          next = omega (arith, f.next, same_used);
          moved = λ b e z.
              let e' : d₁.blocks d₁.info.used_block_count ≡ some b =
                rw same_used (l₁.same _ v.used_high ∙ e) in
              omega (arith, f.moved b e' z, same_used);
          stays = λ b e z.
              let e' : d₁.blocks d₁.info.used_block_count ≡ some b =
                rw same_used (l₁.same _ v.used_high ∙ e) in
              f.stays b e' z ∙ same_used;
        },
      )
