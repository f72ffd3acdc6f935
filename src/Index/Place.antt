-- ===== src/Index/Place.antt =====
-- kv_index.cc with data_file.cc: the value of a new key is written.
use mathlib.Core.Path.{subst}
use pingkv.Base.{
  ℕ, ◌+◌, ◌≤◌, ◌<◌, ◌≡◌, ap, ◌∙◌, length, Bool, List, Bytes, ◌==◌, leb, arith, Bool-cases, inl, inr,
}
use pingkv.DataFile.{DataFile, Os, ok, max_block}
use pingkv.DataFile.File.{write_row}
use pingkv.DataFile.History.{write_row-Stored}
use pingkv.DataFile.InPlace.{record_number}
use pingkv.DataFile.Layout.{IsLaidOut}
use pingkv.DataFile.Stored.{Ext, Stored, with_cache}
use pingkv.DataFile.Valid.{IsValid, Works}
use pingkv.Index.Root.{HasRoot}
use pingkv.Index.Values.{Entry, records, IsIndex}

module _ (os : Os) (works : Works os) where
  pub cached_root :
      (d : DataFile) (es : List Entry) (c : List (ℕ × Bool))
      → HasRoot d (records es)
      → HasRoot (with_cache d c) (records es)
  cached_root d es c h = record {
    block = h.block;
    index = h.index;
    here = h.here;
    got = h.got;
    full = h.full;
    low = h.low;
    len = h.len;
    live = h.live;
    unmoved = h.unmoved;
    single = h.single;
    number = h.number;
    node = h.node;
  }

  -- A value that is written, and its place.
  pub record Placed (d : DataFile) (es : List Entry) (value : Bytes) : Type 0 where
    pub id : ℕ
    pub idx : ℕ
    pub file : DataFile
    pub writes : write_row os value d ≡ ok (id, idx) file
    pub valid : IsValid file
    pub ext : Ext d.blocks file.blocks
    pub stored : Stored file.blocks id idx value
    pub behind : 2 < id
    pub id_ok : id ≤ max_block
    pub idx_ok : idx < 65536
    pub root_same : file.blocks 2 ≡ d.blocks 2

  pub placed :
      (d : DataFile) (es : List Entry) (value : Bytes)
      → IsIndex d es
      → d.info.used_block_count + length value + 129 ≤ max_block
      → Placed d es value
  placed d es value x small =
      let (id, idx, d₁, writes, v₁, ext, s, lo, hi, moved, same, _) =
        write_row-Stored os works value d x.valid small in
      let behind : 2 < id = elim (Bool-cases (d.info.used_block_count == 2)) [
        | inl two ↦
            let at_two : d.info.used_block_count ≡ 2 = ground arith in
            let lt = moved x.root.block (ap d.blocks at_two ∙ x.root.here) x.root.full in
            omega arith
        | inr other ↦ ground (arith, x.valid.used_low)
      ] in
      let inside : id ≤ d₁.info.block_count = elim (Bool-cases (leb id d₁.info.block_count)) [
        | inl le ↦ ground arith
        | inr gt ↦ absurd (let none_there = v₁.beyond id (ground arith) in cc (s.here))
      ] in
      let (b, e, l, i) = v₁.known id (omega arith) inside in
      let same_block : b ≡ s.block = let here = s.here in cc in
      let (pos, bound) = record_number s.block idx s.index (subst IsLaidOut same_block l) s.got in
      record {
        id = id;
        idx = idx;
        file = d₁;
        writes = writes;
        valid = v₁;
        ext = ext;
        stored = s;
        behind = behind;
        id_ok = omega arith;
        idx_ok = omega arith;
        root_same = same 2 behind (omega (arith, x.valid.used_low, x.valid.used_high));
      }
