-- ===== src/Index/Delete.antt =====
-- kv_index.cc with data_file.cc: a key is deleted from the root.
use mathlib.Core.Path.{subst}
use pingkv.Base.{
  ℕ, suc, ◌+◌, ◌≤◌, ◌<◌, ◌≡◌, refl, sym, ◌∙◌, Bool, false, Option, none, some, List, [], ◌∷◌, ◌++◌,
  Bytes, length, length-append, ◌==◌, arith, inl, inr,
}
use pingkv.Base.Memory.{Memory, slice, slice_congr, length-slice}
use pingkv.DataFile.{DataBlock, DataFile, Os, ok, update, row_set_deleted}
use pingkv.DataFile.Row.{set_record}
use pingkv.DataFile.File.{delete_row}
use pingkv.DataFile.InPlace.{changed, in_place, modify_row_runs, delete_row_runs}
use pingkv.DataFile.Stored.{with_cache, mapped_le}
use pingkv.DataFile.Valid.{Works}
use pingkv.Index.{node_len, head_size, k_info_size, head_block_id, KInfo, put_info_at}
use pingkv.Index.Tree.{save_node, del_key}
use pingkv.Index.Keys.{tree_fuel, get_in, del_in}
use pingkv.Index.Fields.{
  IsInfo, get_info_at_congr, get_int_congr, put_info_at_other, get_info_at-put_info_at,
}
use pingkv.Index.Insert.{IsNode, find_pos-IsNode}
use pingkv.Index.Records.{Holds, end_of, end_of_le, Holds-congr, Lacks}
use pingkv.Index.Root.{root_of, HasRoot, get_root_runs, find_key_runs, is_key-Holds}
use pingkv.Index.SetGet.{saved-HasRoot}
use pingkv.Index.Values.{Entry, records, records-append, Values-at, IsIndex}

-- Other fields of one record.
put_info_at-Holds :
    (m : Memory) (o : ℕ) (rs ss : List (KInfo × Bytes)) (i j : KInfo) (q : Bytes)
    → Holds m o (rs ++ (i, q) ∷ ss)
    → IsInfo j
    → j.key_len ≡ i.key_len
    → Holds (put_info_at m (end_of o rs) j) o (rs ++ (j, q) ∷ ss)
put_info_at-Holds m o [] ss i j q (info, len, key, fits, rest) ok_j same = (
  get_info_at-put_info_at m o j ok_j,
  same ∙ len,
  slice_congr (put_info_at m o j) m (o + k_info_size) (length q)
        (λ x lo hi. put_info_at_other m o j x (inr lo))
      ∙ key,
  fits,
  Holds-congr (put_info_at m o j) m (o + k_info_size + length q) ss
      (λ x lo hi. put_info_at_other m o j x (inr (omega arith))) rest,
)
put_info_at-Holds m o ((h, k) ∷ rs) ss i j q (info, len, key, fits, rest) ok_j same =
    let next = o + k_info_size + length k in
    let past = end_of_le next rs in
    (
      get_info_at_congr (put_info_at m (end_of next rs) j) m o
            (λ x lo hi. put_info_at_other m (end_of next rs) j x (inl (omega arith)))
          ∙ info,
      len,
      slice_congr (put_info_at m (end_of next rs) j) m (o + k_info_size) (length k)
            (λ x lo hi. put_info_at_other m (end_of next rs) j x (inl (omega arith)))
          ∙ key,
      fits,
      put_info_at-Holds m next rs ss i j q rest ok_j same,
    )

Holds-end_of :
    (m : Memory) (o : ℕ) (rs : List (KInfo × Bytes))
    → Holds m o rs
    → o ≤ node_len
    → end_of o rs ≤ node_len
Holds-end_of m o [] v le = le
Holds-end_of m o ((i, k) ∷ rs) (info, len, key, fits, rest) le =
    Holds-end_of m (o + k_info_size + length k) rs rest fits

-- The info of a deleted key.
abbrev pub deleted : KInfo → KInfo
deleted i = record i { block_id = 0; row_idx = 0 }

deleted-IsInfo : (i : KInfo) → IsInfo i → IsInfo (deleted i)
deleted-IsInfo i ok_i = record {
  left_ok = ok_i.left_ok;
  block_ok = refl;
  row_ok = refl;
  len_ok = ok_i.len_ok;
}

-- A node in which one key is deleted.
module _ (m : Memory) (rs ss : List (KInfo × Bytes)) (i : KInfo) (q : Bytes)
    (v : IsNode m (rs ++ (i, q) ∷ ss)) (ok_i : IsInfo i) where
  abbrev pub without : Memory
  without = put_info_at m (end_of head_size rs) (deleted i)

  pub without-IsNode : IsNode without (rs ++ (deleted i, q) ∷ ss)
  without-IsNode = record {
    count_ok =
        get_int_congr 2 without m 4 (λ x lo hi.
          put_info_at_other m (end_of head_size rs) (deleted i) x
            (inl (omega (arith, end_of_le head_size rs))))
        ∙ v.count_ok
        ∙ length-append rs ((i, q) ∷ ss)
        ∙ sym (length-append rs ((deleted i, q) ∷ ss));
    holds =
        put_info_at-Holds m head_size rs ss i (deleted i) q v.holds (deleted-IsInfo i ok_i) refl;
  }

  pub without_number : head_block_id without ≡ head_block_id m
  without_number = get_int_congr 4 without m 0 λ x lo hi.
      put_info_at_other m (end_of head_size rs) (deleted i) x
        (inl (omega (arith, end_of_le head_size rs)))

module _ (os : Os) (fresh : Memory) where
  del_key_runs :
      (m : Memory) (rs ss : List (KInfo × Bytes)) (i : KInfo) (q : Bytes) (d d₁ d₂ : DataFile)
      (v : IsNode m (rs ++ (i, q) ∷ ss)) (ok_i : IsInfo i)
      → Lacks q rs
      → i.block_id == 0 ≡ false
      → delete_row os i.block_id i.row_idx d ≡ ok tt d₁
      → save_node os fresh (without m rs ss i q v ok_i) d₁ ≡ ok tt d₂
      → del_key os fresh m q d ≡ ok tt d₂
  unfolding del_key
  del_key_runs m rs ss i q d d₁ d₂ v ok_i lacks some_block deletes saves =
      let (found, info) = find_pos-IsNode m rs ss i q v lacks in
      let key = is_key-Holds m head_size rs ss i q v.holds in
      ground (arith, found, info, key, some_block, deletes, saves)

-- A write to a block behind the root leaves the root.
other_block :
    (bs : ℕ → Option DataBlock) (id : ℕ) (b : DataBlock) → 2 < id → update bs id b 2 ≡ bs 2
unfolding update
other_block bs id b lt = ground arith

module _ (os : Os) (fresh : Memory) (works : Works os) where
  -- `_find_key` and `_get` of a key whose record has no value.
  get_in-deleted :
      (d : DataFile) (rs ss : List (KInfo × Bytes)) (i : KInfo) (q : Bytes)
      → HasRoot d (rs ++ (deleted i, q) ∷ ss)
      → Lacks q rs
      → (c : List (ℕ × Bool)) × (get_in os fresh q d ≡ ok none (with_cache d c))
  unfolding get_in
  get_in-deleted d rs ss i q h lacks =
      let (c, reads) = get_root_runs os fresh d (rs ++ (deleted i, q) ∷ ss) h works.maps in
      let m = root_of h.block h.index in
      let finds =
        find_key_runs os fresh d.info.block_count m rs ss (deleted i) q (with_cache d c) h.node
          lacks in
      let fuel : tree_fuel d ≡ suc d.info.block_count = omega arith in
      (c, ground (arith, fuel, reads, finds))

  -- In a valid file whose root holds keys with their values, `del_in` of the key of an entry in
  -- front of which no entry has that key succeeds when the system calls do: after it the root holds
  -- the same keys, the record of this one without a value, and `get_in` of the key gives none.
  pub get_in-del_in :
      (d : DataFile) (es fs : List Entry) (e : Entry)
      → IsIndex d (es ++ e ∷ fs)
      → Lacks e.key (records es)
      → (d' : DataFile) × (del_in os fresh e.key d ≡ ok tt d')
        × HasRoot d' (records es ++ (deleted e.info, e.key) ∷ records fs)
        × ((c : List (ℕ × Bool)) × (get_in os fresh e.key d' ≡ ok none (with_cache d' c)))
  unfolding del_in save_node
  get_in-del_in d es fs e x lacks =
      let rs = records es in
      let ss = records fs in
      let h = subst (HasRoot d) (records-append es (e ∷ fs)) x.root in
      let (c, reads) = get_root_runs os fresh d (rs ++ (e.info, e.key) ∷ ss) h works.maps in
      let d₀ = with_cache d c in
      let m = root_of h.block h.index in
      let (behind, leaf, info_ok, s) = Values-at es e fs x.values in
      let (c₁, deletes) =
        delete_row_runs os d₀ e.info.block_id e.info.row_idx s.block s.index works.maps
          (mapped_le d₀ e.info.block_id s.block x.valid.beyond x.valid.small s.here) s.here s.got in
      let b₁ =
        set_record s.block e.info.row_idx
          (record (s.index) { flags = row_set_deleted s.index.flags }) in
      let d₁ = changed d₀ c₁ e.info.block_id b₁ in
      let m' = without m rs ss e.info e.key h.node info_ok in
      let node' = without-IsNode m rs ss e.info e.key h.node info_ok in
      let number = without_number m rs ss e.info e.key h.node info_ok ∙ h.number in
      let fits = Holds-end_of m' head_size _ node'.holds (omega arith) in
      let here : d₁.blocks 2 ≡ some h.block =
        other_block d₀.blocks e.info.block_id b₁ behind ∙ h.here in
      let (c₂, modifies) =
        modify_row_runs os d₁ 2 1 h.block h.index (slice m' 0 node_len) works.maps (omega arith)
          here h.got h.live h.unmoved h.single (omega (arith, length-slice m' 0 node_len, h.len)) in
      let d₂ = changed d₁ c₂ 2 (in_place h.block h.index (slice m' 0 node_len)) in
      let saves : save_node os fresh m' d₁ ≡ ok tt d₂ = rw (save_node, number) modifies in
      let root' =
        saved-HasRoot d (rs ++ (e.info, e.key) ∷ ss) h m' (rs ++ (deleted e.info, e.key) ∷ ss) node'
          fits number d₁ c₂ in
      let some_block : (e.info.block_id == 0) ≡ false = ground arith in
      let dels =
        del_key_runs os fresh m rs ss e.info e.key d₀ d₁ d₂ h.node info_ok lacks some_block deletes
          saves in
      (d₂, ground (arith, reads, dels), root', get_in-deleted d₂ rs ss e.info e.key root' lacks)
