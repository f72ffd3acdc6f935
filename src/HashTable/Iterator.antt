-- ===== src/HashTable/Iterator.antt =====
-- pingkv/src/tool/hashtable.h: `Iterator`.
use pingkv.Base.{ℕ, zero, suc, ◌+◌, ◌-◌, Bool, Option, none, some, ltb, if◌then◌else◌}
use pingkv.Base.Int.{ℤ, is_zero}
use pingkv.Base.Maybe.{◌>>=◌}
use pingkv.HashTable.{HashTable, same_ptr, comp_elem}

-- `Iterator`, without the table that it goes over
pub record Iterator : Type 0 where
  pub node : Option ℕ
  pub idx : ℕ

module _ {K V : Type 0} (t : HashTable K V) where
  -- The loop of `operator++`: the buckets behind `idx`, as many as given.
  unfoldable pub seek_up : ℕ → ℕ → Iterator
  seek_up zero idx = record { node = none; idx = idx }
  seek_up (suc left) idx =
      let rest = seek_up left (idx + 1) in
      if ltb 0 (t.buckets (idx + 1)).size
      then record { node = (t.buckets (idx + 1)).begin; idx = idx + 1 }
      else rest

  -- `operator++`; a null iterator is undefined.
  unfoldable pub step_up : Iterator → Option Iterator
  unfolding seek_up
  step_up it = elim it.node [
    | none ↦ none
    | some p ↦ (do
      n ← (t.buckets it.idx).nodes p
      some (elim n.next [
        | none ↦ seek_up (t.bucket_count - 1 - it.idx) it.idx
        | some q ↦ record it { node = some q }
      ]))
  ]

  -- The loop of `operator--`: it enters a bucket at its first node.
  unfoldable pub seek_down : ℕ → Iterator
  seek_down zero = record { node = none; idx = 0 }
  seek_down (suc idx) =
      let rest = seek_down idx in
      if ltb 0 (t.buckets idx).size
      then record { node = (t.buckets idx).begin; idx = idx }
      else rest

  -- `operator--`
  unfoldable pub step_down : Iterator → Option Iterator
  unfolding seek_down
  step_down it = elim it.node [
    | none ↦ none
    | some p ↦ (do
      n ← (t.buckets it.idx).nodes p
      some (elim n.prev [ none ↦ seek_down it.idx | some q ↦ record it { node = some q } ]))
  ]

  -- The loop of `begin` from bucket `i` on.
  unfoldable pub begin_from : ℕ → ℕ → Iterator
  begin_from zero i = record { node = none; idx = t.bucket_count - 1 }
  begin_from (suc left) i =
      let rest = begin_from left (i + 1) in
      if ltb 0 (t.buckets i).size then record { node = (t.buckets i).begin; idx = i } else rest

  -- `begin` and `end`
  unfoldable pub begin_it : Iterator
  unfolding begin_from
  begin_it = begin_from t.bucket_count 0

  abbrev pub end_it : Iterator
  end_it = record { node = none; idx = t.bucket_count - 1 }

  -- `operator*`
  unfoldable pub current : Iterator → Option (Option ℕ)
  current it = elim it.node [
    | none ↦ some none
    | some p ↦ (do n ← (t.buckets it.idx).nodes p; some n.elem)
  ]

  -- `operator==`
  unfoldable pub same_place : (K → K → ℤ) → Iterator → Iterator → Option Bool
  unfolding current comp_elem
  same_place comp a b = do
    y ← current b
    elim a.node [
      | none ↦ some (same_ptr y none)
      | some p ↦ (do x ← current a; r ← comp_elem comp t.elems x y; some (is_zero r))
    ]
