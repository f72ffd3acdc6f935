-- ===== src/Index/SetGet.antt =====
-- kv_index.cc with data_file.cc: a key is set in the root, and read again.
use pingkv.Base.{
  ℕ, ◌+◌, ◌≤◌, ◌<◌, ◌≡◌, refl, ap, sym, ◌∙◌, Bool, List, [], ◌∷◌, ◌++◌, Bytes, length, arith,
}
use pingkv.Base.Memory.{Memory, slice, blit, blit-slice, zeros, length-slice, slice-blit_self}
use pingkv.DataFile.{RecordIndex, DataBlock, DataFile, update}
use pingkv.DataFile.Block.{free_bytes}
use pingkv.DataFile.Row.{row_get_record}
use pingkv.DataFile.InPlace.{in_place, changed}
use pingkv.DataFile.Stored.{with_cache}
use pingkv.DataFile.Valid.{IsValid}
use pingkv.Index.{node_len, head_size, k_info_size, head_block_id, KInfo}
use pingkv.Index.Fields.{Fits, get_int_congr}
use pingkv.Index.Records.{end_of, Holds-congr}
use pingkv.Index.Insert.{IsNode}
use pingkv.Index.Root.{root_of, HasRoot}

-- A number below 2 ^ 32 fits 4 bytes, and one below 2 ^ 16 fits 2.
pub Fits-four : (n : ℕ) → n < 4294967296 → Fits 4 n
Fits-four n lt = omega arith

pub Fits-two : (n : ℕ) → n < 65536 → Fits 2 n
Fits-two n lt = omega arith

pub with_cache-IsValid : (d : DataFile) (c : List (ℕ × Bool)) → IsValid d → IsValid (with_cache d c)
with_cache-IsValid d c v = record {
  used_low = v.used_low;
  used_high = v.used_high;
  small = v.small;
  known = v.known;
  fresh = v.fresh;
  beyond = v.beyond;
}

-- The row of a node, put over the old one.
saved_root :
    (b : DataBlock) (r : RecordIndex) (m : Memory)
    → r.len ≡ node_len
    → slice (in_place b r (slice m 0 node_len)).area r.offset node_len ≡ slice m 0 node_len
saved_root b r m len =
    let old = blit b.area r.offset (zeros r.len) in
    ap (slice (blit old r.offset (slice m 0 node_len)) r.offset) (sym (length-slice m 0 node_len))
    ∙ slice-blit_self old r.offset (slice m 0 node_len)

-- A node read back is the node that was saved.
pub root_bytes : (m : Memory) (i : ℕ) → i < node_len → blit (λ _. 0) 0 (slice m 0 node_len) i ≡ m i
root_bytes m i lt = blit-slice (λ _. 0) m 0 node_len i (omega arith) (omega arith)

-- Nodes that agree in their bytes hold the same records.
pub agree-IsNode :
    (f g : Memory) (rs : List (KInfo × Bytes))
    → ((i : ℕ) → i < node_len → f i ≡ g i)
    → end_of head_size rs ≤ node_len
    → IsNode g rs
    → IsNode f rs
agree-IsNode f g rs h le v = record {
  count_ok = get_int_congr 2 f g 4 (λ i lo hi. h i (omega arith)) ∙ v.count_ok;
  holds = Holds-congr f g head_size rs (λ i lo hi. h i (omega arith)) v.holds;
}

pub end_of-append :
    (o : ℕ) (rs : List (KInfo × Bytes)) (i : KInfo) (q : Bytes)
    → end_of o (rs ++ (i, q) ∷ []) ≡ end_of o rs + k_info_size + length q
end_of-append o [] i q = refl
end_of-append o ((j, k) ∷ rs) i q = end_of-append (o + k_info_size + length k) rs i q

-- The block of the root after its node is saved.
module _ (d : DataFile) (rs : List (KInfo × Bytes)) (h : HasRoot d rs) (m : Memory)
    (rs' : List (KInfo × Bytes)) (v : IsNode m rs') (fits : end_of head_size rs' ≤ node_len)
    (number : head_block_id m ≡ 2) where
  abbrev pub saved_block : DataBlock
  saved_block = in_place h.block h.index (slice m 0 node_len)

  saved_root_of : root_of saved_block h.index ≡ blit (λ _. 0) 0 (slice m 0 node_len)
  saved_root_of = ap (blit (λ _. 0) 0) (saved_root h.block h.index m h.len)

  pub saved-HasRoot :
      (d₁ : DataFile) (c : List (ℕ × Bool)) → HasRoot (changed d₁ c 2 saved_block) rs'
  unfolding row_get_record free_bytes update
  saved-HasRoot d₁ c = record {
    block = saved_block;
    index = h.index;
    here = refl;
    got = h.got;
    full = h.full;
    low = h.low;
    len = h.len;
    live = h.live;
    unmoved = h.unmoved;
    single = h.single;
    number =
        rw saved_root_of (get_int_congr 4 _ m 0 (λ i lo hi. root_bytes m i (omega arith)) ∙ number);
    node = rw saved_root_of (agree-IsNode _ m rs' (root_bytes m) fits v);
  }
