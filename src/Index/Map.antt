-- ===== src/Index/Map.antt =====
-- kv_index.cc with data_file.cc: a key is set in the root of an index, and keys are read.
use mathlib.Core.Path.{subst}
use pingkv.Base.{
  ℕ, suc, ◌+◌, ◌≤◌, ◌≡◌, refl, sym, ◌∙◌, Bool, false, some, List, [], ◌∷◌, ◌++◌, Bytes, length,
  ◌==◌, arith,
}
use pingkv.Base.Memory.{Memory, slice, length-slice}
use pingkv.DataFile.{DataBlock, DataFile, Os, ok, max_block}
use pingkv.DataFile.InPlace.{changed, modify_row_runs, changed-IsValid}
use pingkv.DataFile.Stored.{with_cache, read_row-Stored}
use pingkv.DataFile.Valid.{Works}
use pingkv.Index.{node_len, head_size, k_info_size, head_block_id, KInfo}
use pingkv.Index.Tree.{save_node, set_key}
use pingkv.Index.Keys.{tree_fuel, set_in, get_in}
use pingkv.Index.Fields.{IsInfo}
use pingkv.Index.Records.{end_of, Lacks, Below}
use pingkv.Index.Insert.{IsNode, with_count, with_count-IsNode, number_kept}
use pingkv.Index.Root.{root_of, HasRoot, get_root_runs, new_info, set_key_runs, find_key_runs}
use pingkv.Index.SetGet.{
  Fits-four, Fits-two, with_cache-IsValid, end_of-append, saved_block, saved-HasRoot,
}
use pingkv.Index.Values.{
  Entry, records, records-append, Values-Ext, Values-update, Values-append, Values-at, IsIndex,
  used,
}
use pingkv.Index.Place.{cached_root, Placed, placed}

module _ (os : Os) (fresh : Memory) (works : Works os) where
  -- In a valid file whose root holds keys with their values, a key that is in the root is read with its
  -- value.
  pub get_in-IsIndex :
      (d : DataFile) (es fs : List Entry) (e : Entry)
      → IsIndex d (es ++ e ∷ fs)
      → Lacks e.key (records es)
      → (c : List (ℕ × Bool)) × (get_in os fresh e.key d ≡ ok (some e.value) (with_cache d c))
  unfolding get_in
  get_in-IsIndex d es fs e x lacks =
      let (c, reads) = get_root_runs os fresh d (records (es ++ e ∷ fs)) x.root works.maps in
      let m = root_of x.root.block x.root.index in
      let d₀ = with_cache d c in
      let node : IsNode m (records es ++ (e.info, e.key) ∷ records fs) =
        subst (IsNode m) (records-append es (e ∷ fs)) x.root.node in
      let finds =
        find_key_runs os fresh d.info.block_count m (records es) (records fs) e.info e.key d₀ node
          lacks in
      let (behind, leaf, info_ok, s) = Values-at es e fs x.values in
      let (c₁, row) =
        read_row-Stored os works.maps e.info.block_id e.info.row_idx d₀ e.value s x.valid.beyond
          x.valid.small in
      let fuel : tree_fuel d ≡ suc d.info.block_count = omega arith in
      let some_block : (e.info.block_id == 0) ≡ false = ground arith in
      (c₁, ground (arith, fuel, reads, finds, some_block, row))

  -- The root with a new key, when the value is placed.
  module _ (d : DataFile) (es : List Entry) (q value : Bytes) (x : IsIndex d es)
      (below : Below q (records es)) (room : used es + k_info_size + length q ≤ node_len)
      (p : Placed os works d es value) where
    abbrev info : KInfo
    info = new_info os fresh p.id p.idx q

    info-IsInfo : IsInfo info
    info-IsInfo = record {
      left_ok = refl;
      block_ok = Fits-four p.id (omega (arith, p.id_ok));
      row_ok = Fits-two p.idx p.idx_ok;
      len_ok = Fits-two (length q) (omega arith);
    }

    abbrev old_node : Memory
    old_node = root_of x.root.block x.root.index

    abbrev new_node : Memory
    new_node = with_count old_node (records es) q x.root.node below room info info-IsInfo refl

    new_node-IsNode : IsNode new_node (records es ++ (info, q) ∷ [])
    new_node-IsNode =
        with_count-IsNode old_node (records es) q x.root.node below room info info-IsInfo refl

    new_number : head_block_id new_node ≡ 2
    new_number =
        number_kept old_node (records es) q x.root.node below room info info-IsInfo refl
        ∙ x.root.number

    new_fits : end_of head_size (records es ++ (info, q) ∷ []) ≤ node_len
    new_fits = rw (end_of-append head_size (records es) info q) room

    abbrev entry : Entry
    entry = record { info = info; key = q; value = value }

    abbrev new_block : DataBlock
    new_block =
        saved_block d (records es) x.root new_node (records es ++ (info, q) ∷ []) new_node-IsNode
          new_fits new_number

    save_new :
        (c : List (ℕ × Bool)) × (save_node os fresh new_node p.file
          ≡ ok tt (changed p.file c 2 new_block))
    unfolding save_node
    save_new =
        let (c, saves) =
          modify_row_runs os p.file 2 1 x.root.block x.root.index (slice new_node 0 node_len)
            works.maps (omega arith) (p.root_same ∙ x.root.here) x.root.got x.root.live
            x.root.unmoved x.root.single
            (omega (arith, length-slice new_node 0 node_len, x.root.len)) in
        (c, rw (save_node, new_number) saves)

    saved-IsIndex :
        (c : List (ℕ × Bool)) → IsIndex (changed p.file c 2 new_block) (es ++ entry ∷ [])
    saved-IsIndex c = record {
      valid =
          changed-IsValid p.file c 2 x.root.block x.root.index (slice new_node 0 node_len) p.valid
            (omega arith) p.valid.used_low (p.root_same ∙ x.root.here);
      root = subst (HasRoot (changed p.file c 2 new_block)) (sym (records-append es (entry ∷ []))) (
          saved-HasRoot d (records es) x.root new_node (records es ++ (info, q) ∷ [])
            new_node-IsNode new_fits new_number p.file c);
      values = Values-update p.file.blocks new_block (es ++ entry ∷ []) (
          Values-append p.file.blocks es (entry ∷ []) (Values-Ext p.ext es x.values)
            ((p.behind, refl, info-IsInfo, p.stored), tt));
    }

    set_new :
        (fuel : ℕ)
        → (d' : DataFile) × (set_key os fresh (suc fuel) old_node q value d ≡ ok tt d')
          × IsIndex d' (es ++ entry ∷ [])
    set_new fuel =
        let (c, saves) = save_new in
        (
          changed p.file c 2 new_block,
          set_key_runs os fresh fuel old_node (records es) q value x.root.node below room p.id p.idx
              d p.file (changed p.file c 2 new_block) info-IsInfo p.writes saves,
          saved-IsIndex c,
        )

  -- In a valid file whose root holds keys with their values, with room below the last block that can be
  -- mapped for a block for each byte of the value and for 129 more: `set_in` of a key above all of
  -- them, for which the root has room, succeeds when the system calls do and leaves a valid file whose
  -- root holds these keys and then the new one, with their values.
  pub set_in-IsIndex :
      (d : DataFile) (es : List Entry) (q value : Bytes)
      → IsIndex d es
      → Below q (records es)
      → used es + k_info_size + length q ≤ node_len
      → d.info.used_block_count + length value + 129 ≤ max_block
      → (i : KInfo) × (d' : DataFile) × (set_in os fresh q value d ≡ ok tt d')
        × IsIndex d' (es ++ record { info = i; key = q; value = value } ∷ [])
  unfolding set_in
  set_in-IsIndex d es q value x below room small =
      let (c, reads) = get_root_runs os fresh d (records es) x.root works.maps in
      let d₀ = with_cache d c in
      let x₀ : IsIndex d₀ es = record {
        valid = with_cache-IsValid d c x.valid;
        root = cached_root os works d es c x.root;
        values = x.values;
      } in
      let p = placed os works d₀ es value x₀ small in
      let (d', sets, x') = set_new d₀ es q value x₀ below room p d.info.block_count in
      let fuel : tree_fuel d ≡ suc d.info.block_count = omega arith in
      (new_info os fresh p.id p.idx q, d', ground (arith, fuel, reads, sets), x')
