-- ===== src/Index/Insert.antt =====
-- kv_index.cc: a new record in a node, and the search for a key in it.
use pingkv.Base.{
  ℕ, ◌+◌, ◌-◌, ◌≤◌, ◌<◌, ◌≡◌, inl, inr, refl, sym, ap, ◌∙◌, true, none, some, List, [], ◌∷◌, ◌++◌,
  Bytes, length, length-append, arith, leb, le→leb,
}
use pingkv.Base.Memory.{Memory, slice, slice_congr, slice-blit_self, blit, blit-below}
use pingkv.DataFile.{pure}
use pingkv.Index.{
  node_len, head_size, k_info_size, head_block_id, record_count, KInfo, get_info_at, put_info_at,
  put_int,
}
use pingkv.Index.Node.{miss, scan, no_info, find_pos}
use pingkv.Index.Tree.{put_record}
use pingkv.Index.Fields.{
  IsInfo, get_info_at_congr, get_int_congr, get_int-put_int, put_int_other, put_info_at_other,
  get_info_at-put_info_at,
}
use pingkv.Index.Records.{
  Holds, end_of, end_of_le, Holds-congr, Holds-append, Lacks, Below, scan-hit, scan-miss,
}

-- A node with its records and their count.
pub record IsNode (m : Memory) (rs : List (KInfo × Bytes)) : Type 0 where
  pub count_ok : record_count m ≡ length rs
  pub holds : Holds m head_size rs

Holds-at :
    (m : Memory) (o : ℕ) (rs : List (KInfo × Bytes)) (i : KInfo) (q : Bytes)
    (ss : List (KInfo × Bytes))
    → Holds m o (rs ++ (i, q) ∷ ss)
    → get_info_at m (end_of o rs) ≡ i
Holds-at m o [] i q ss (info, len, key, fits, rest) = info
Holds-at m o ((j, k) ∷ rs) i q ss (info, len, key, fits, rest) =
    Holds-at m (o + k_info_size + length k) rs i q ss rest

-- In a node that holds records, `_find_pos` finds the first record with a key, and leaves the node as it is.
pub find_pos-IsNode :
    (m : Memory) (rs ss : List (KInfo × Bytes)) (i : KInfo) (q : Bytes)
    → IsNode m (rs ++ (i, q) ∷ ss)
    → Lacks q rs
    → (find_pos m q ≡ some (some (end_of head_size rs), m))
      × (get_info_at m (end_of head_size rs) ≡ i)
unfolding find_pos
find_pos-IsNode m rs ss i q v lacks =
    let lt : length rs < record_count m = rw (v.count_ok, length-append) (omega arith) in
    let reaches = scan-hit m head_size (record_count m) rs i q ss none v.holds lacks lt in
    (rw (find_pos, reaches) refl, Holds-at m head_size rs i q ss v.holds)

-- A key above all others, and room for its record.
module _ (m : Memory) (rs : List (KInfo × Bytes)) (q : Bytes) (v : IsNode m rs) (below : Below q rs)
    (room : end_of head_size rs + k_info_size + length q ≤ node_len) where
  abbrev end : ℕ
  end = end_of head_size rs

  abbrev pub with_empty : Memory
  with_empty = put_info_at m end no_info

  pub find_pos_new : find_pos m q ≡ some (some end, with_empty)
  unfolding find_pos
  find_pos_new =
      let misses : scan (record_count m) m q head_size none ≡ some (miss none end) =
        rw v.count_ok (scan-miss m head_size rs q v.holds below) in
      let past = end_of_le head_size rs in
      let short : leb (k_info_size + length q) (node_len - head_size) ≡ true =
        le→leb _ _ (omega arith) in
      let fits : leb (end + k_info_size) node_len ≡ true = le→leb _ _ (omega arith) in
      rw (find_pos, misses, short, fits) refl

  -- The node with the record and the new count.
  module _ (i : KInfo) (ok : IsInfo i) (len : i.key_len ≡ length q) where
    abbrev pub with_record : Memory
    with_record = blit (put_info_at with_empty end i) (end + k_info_size) q

    abbrev pub with_count : Memory
    with_count = put_int 2 with_record 4 (record_count with_empty + 1)

    pub put_record_new : put_record with_empty end i q ≡ pure with_record
    unfolding put_record
    put_record_new =
        let fits : leb (end + k_info_size + length q) node_len ≡ true = le→leb _ _ room in
        rw (put_record, fits) refl

    old_bytes : (j : ℕ) → 6 ≤ j → j < end → with_count j ≡ m j
    old_bytes j lo hi =
        put_int_other 2 with_record 4 (record_count with_empty + 1) j (inr (omega arith))
        ∙ blit-below (put_info_at with_empty end i) (end + k_info_size) q j (omega arith)
        ∙ put_info_at_other with_empty end i j (inl hi)
        ∙ put_info_at_other m end no_info j (inl hi)

    count_kept : record_count with_empty ≡ length rs
    count_kept =
        get_int_congr 2 with_empty m 4 (λ j lo hi.
          put_info_at_other m end no_info j (inl (omega (arith, end_of_le head_size rs))))
        ∙ v.count_ok

    new_count : record_count with_count ≡ length rs + 1
    new_count =
        get_int-put_int 2 with_record 4 (record_count with_empty + 1)
          (rw count_kept (omega (arith, end_of_le head_size rs)))
        ∙ ap (λ n. n + 1) count_kept

    new_info : get_info_at with_count end ≡ i
    new_info =
        get_info_at_congr with_count (put_info_at with_empty end i) end (λ j lo hi.
          put_int_other 2 with_record 4 (record_count with_empty + 1) j
            (inr (omega (arith, end_of_le head_size rs)))
          ∙ blit-below (put_info_at with_empty end i) (end + k_info_size) q j hi)
        ∙ get_info_at-put_info_at with_empty end i ok

    new_key : slice with_count (end + k_info_size) (length q) ≡ q
    new_key =
        slice_congr with_count with_record (end + k_info_size) (length q) (λ j lo hi.
          put_int_other 2 with_record 4 (record_count with_empty + 1) j
            (inr (omega (arith, end_of_le head_size rs))))
        ∙ slice-blit_self (put_info_at with_empty end i) (end + k_info_size) q

    pub with_count-IsNode : IsNode with_count (rs ++ (i, q) ∷ [])
    with_count-IsNode = record {
      count_ok = new_count ∙ sym (length-append rs ((i, q) ∷ []));
      holds =
          Holds-append with_count head_size rs ((i, q) ∷ [])
            (Holds-congr with_count m head_size rs (λ j lo hi. old_bytes j (omega arith) hi)
              v.holds)
            (new_info, len, new_key, room, tt);
    }

    pub number_kept : head_block_id with_count ≡ head_block_id m
    number_kept = get_int_congr 4 with_count m 0 λ j lo hi.
        put_int_other 2 with_record 4 (record_count with_empty + 1) j (inl hi)
        ∙ blit-below (put_info_at with_empty end i) (end + k_info_size) q j
            (omega (arith, end_of_le head_size rs))
        ∙ put_info_at_other with_empty end i j (inl (omega (arith, end_of_le head_size rs)))
        ∙ put_info_at_other m end no_info j (inl (omega (arith, end_of_le head_size rs)))
