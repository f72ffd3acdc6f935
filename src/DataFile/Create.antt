-- ===== src/DataFile/Create.antt =====
-- data_file.cc: `create_file` and the invariant of a file.
use pingkv.Base.{
  ℕ, zero, suc, ◌+◌, ◌≤◌, ◌<◌, ◌≡◌, refl, ap, sym, ◌∙◌, true, none, some, [], Bytes, take, leb,
  ◌==◌, arith, Bool-cases, inl, inr, ==→eq,
}
use pingkv.DataFile.{DataBlock, DataFile, Os, ok, max_block, store, update}
use pingkv.DataFile.Block.{format_block, extend_loop, extend_file, flush_file_head}
use pingkv.DataFile.File.{closed, create_file}
use pingkv.DataFile.Layout.{IsLaidOut}
use pingkv.DataFile.Valid.{IsValid, Works, format_block-IsLaidOut, extended}

-- Every block up to the end is formatted and empty.
pub record IsBlank (d : DataFile) : Type 0 where
  pub known :
      (id : ℕ)
      → 2 ≤ id
      → id ≤ d.info.block_count
      → (b : DataBlock) × (d.blocks id ≡ some b)
        × IsLaidOut b
        × (b.block_id ≡ id)
        × (b.records ≡ [])
  pub beyond : (id : ℕ) → d.info.block_count < id → d.blocks id ≡ none

module _ (os : Os) (works : Works os) where
  extended-IsBlank : (d : DataFile) → IsBlank d → IsBlank (extended os works d)
  unfolding update format_block
  extended-IsBlank d v = record {
    known = λ id lo hi. elim (Bool-cases (id == d.info.block_count + 1)) [
      | inl new ↦ (
        format_block os id,
        ground (arith, ==→eq _ _ new),
        format_block-IsLaidOut os works id,
        refl,
        refl,
      )
      | inr old ↦ let (b, e, l, i, n) = v.known id lo (ground arith) in (b, rw old e, l, i, n)
    ];
    beyond = λ id lt. ground (arith, v.beyond id (omega arith));
  }

  extend_loop-IsBlank :
      (k : ℕ) (d : DataFile)
      → IsBlank d
      → (d' : DataFile) × (extend_loop os k (d.info.block_count + 1) d ≡ ok tt d')
        × IsBlank d'
        × (d'.info ≡ record (d.info) { block_count = d.info.block_count + k })
  unfolding extend_loop store
  extend_loop-IsBlank zero d v = (d, refl, v, ground arith)
  extend_loop-IsBlank (suc k) d v =
      let (d', e, b, i) = extend_loop-IsBlank k (extended os works d) (extended-IsBlank d v) in
      (d', rw (works.extends (d.info.block_count + 1)) e, b, ground (arith, i))

  IsBlank-IsValid :
      (d : DataFile)
      → IsBlank d
      → 2 ≤ d.info.used_block_count
      → d.info.used_block_count ≤ d.info.block_count
      → d.info.block_count ≤ max_block
      → IsValid d
  IsBlank-IsValid d v lo hi small = record {
    used_low = lo;
    used_high = hi;
    small = small;
    known = λ id l h. let (b, e, o, i, n) = v.known id l h in (b, e, o, i);
    fresh = λ id b lt e. elim (Bool-cases (leb id d.info.block_count)) [
      | inl inside ↦
          let (c, e', o, i, n) = v.known id (omega arith) (ground arith) in
          let same : c ≡ b = cc in ap (λ a. a.records) (sym same) ∙ n
      | inr outside ↦ absurd (cc (v.beyond id (ground arith)))
    ];
    beyond = v.beyond;
  }

  -- The state after the head of the file is written.
  abbrev head_written : Bytes → ℕ → DataFile
  head_written name file_id = record closed {
    info = record {
      curr_pid = os.getpid;
      file_id = file_id;
      db_name = take 15 name;
      block_size = 8192;
      block_count = 1;
      used_block_count = 1;
    };
  }

  head_written-IsBlank : (name : Bytes) (file_id : ℕ) → IsBlank (head_written name file_id)
  head_written-IsBlank name file_id = record {
    known = λ id lo hi. absurd (omega arith);
    beyond = λ id lt. refl;
  }

  -- The state after `create_file`, from the one after `_extend_file`.
  abbrev ready : DataFile → DataFile
  ready d = record d { info = record (d.info) { used_block_count = 2 }; init_ok = true }

  create_file-ready :
      (dbname name : Bytes) (file_id : ℕ) (d : DataFile)
      → os.freed_name (take 15 dbname) ≡ some name
      → os.open_file ≡ true
      → os.msync ≡ true
      → os.mmap 1 ≡ true
      → extend_loop os 128 2 (head_written name file_id) ≡ ok tt d
      → create_file os dbname file_id closed ≡ ok tt (ready d)
  unfolding create_file extend_file flush_file_head
  create_file-ready dbname name file_id d named opened synced mapped e = ground arith

  -- When the system calls succeed, and the read through the pointer to the freed name gives some bytes:
  -- `create_file` makes a valid file of 129 blocks, each one past the head formatted and empty, that is
  -- ready for use and has the first 15 of these bytes for its name.
  pub create_file-IsValid :
      (dbname name : Bytes) (file_id : ℕ)
      → os.freed_name (take 15 dbname) ≡ some name
      → os.open_file ≡ true
      → os.msync ≡ true
      → (d : DataFile) × (create_file os dbname file_id closed ≡ ok tt d)
        × IsValid d
        × IsBlank d
        × (d.info.block_count ≡ 129)
        × (d.info.used_block_count ≡ 2)
        × (d.init_ok ≡ true)
        × (d.info.db_name ≡ take 15 name)
  create_file-IsValid dbname name file_id named opened synced =
      let (d, e, b, i) =
        extend_loop-IsBlank 128 (head_written name file_id) (head_written-IsBlank name file_id) in
      let count : d.info.block_count ≡ 129 = ap (λ x. x.block_count) i in
      let d' = ready d in
      let blank : IsBlank d' = record { known = b.known; beyond = b.beyond } in
      (
        d',
        create_file-ready dbname name file_id d named opened synced (works.maps 1) e,
        IsBlank-IsValid d' blank (omega arith) (omega (arith, count)) (omega (arith, count)),
        blank,
        count,
        refl,
        refl,
        ap (λ x. x.db_name) i,
      )
