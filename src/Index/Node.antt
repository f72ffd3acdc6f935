-- ===== src/Index/Node.antt =====
-- The records of a node: `_cmp_key`, `_node_free_space` and `_find_pos`.
use pingkv.Base.{
  ℕ, zero, suc, ◌+◌, ◌-◌, Bool, true, false, ◌&&◌, Option, none, some, [], ◌∷◌, Bytes, length, ltb,
  leb, if◌then◌else◌,
}
use pingkv.Base.Maybe.{◌>>=◌}
use pingkv.Base.Memory.{Memory}
use pingkv.Index.{
  node_len, head_size, k_info_size, record_count, KInfo, get_info_at, put_info_at, key_at,
}

-- The sign of the result of `_cmp_key`.
pub data Order : Type 0 where
  less equal greater : Order

-- `_cmp_key`: `memcmp` in the length of the shorter key, and then the lengths.
unfoldable pub cmp_key : Bytes → Bytes → Order
cmp_key [] [] = equal
cmp_key [] (d ∷ ds) = less
cmp_key (c ∷ cs) [] = greater
cmp_key (c ∷ cs) (d ∷ ds) =
    let rest = cmp_key cs ds in if ltb c d then less else if ltb d c then greater else rest

-- Whether the record at an offset lies in the node.
unfoldable pub inside : Memory → ℕ → Bool
unfolding get_info_at
inside m o =
    leb (o + k_info_size) node_len && leb (o + k_info_size + (get_info_at m o).key_len) node_len

-- The loop of `_node_free_space`; `o` is the offset behind the last record.
unfoldable pub free_space_loop : ℕ → Memory → ℕ → ℕ → Option ℕ
unfolding get_info_at inside
free_space_loop zero m o space = some space
free_space_loop (suc n) m o space =
    let len = (get_info_at m o).key_len in
    let rest = free_space_loop n m (o + k_info_size + len) (space - k_info_size - len) in
    if inside m o then rest else none

unfoldable pub node_free_space : Memory → Option ℕ
unfolding free_space_loop
node_free_space m = do
  space ← free_space_loop (record_count m) m head_size (node_len - head_size)
  some (space - k_info_size)

-- What the loop of `_find_pos` has at its end: the record with the key, or the record with the least
-- key above it, if there is one, and the offset behind the last record.
pub data Scan : Type 0 where
  hit : ℕ → Scan
  miss : Option ℕ → ℕ → Scan

-- The record that is kept as the match: the new one, if its key is below the one so far.
abbrev pub better : Memory → Option ℕ → ℕ → Option ℕ
better m none o = some o
better m (some p) o = elim (cmp_key (key_at m p) (key_at m o)) [
  | greater ↦ some o
  | equal ↦ some p
  | less ↦ some p
]

-- The loop of `_find_pos`. Its variable `space` is left out: it falls only in rounds that set the
-- match, and is looked at only where there is none.
unfoldable pub scan : ℕ → Memory → Bytes → ℕ → Option ℕ → Option Scan
unfolding get_info_at inside key_at cmp_key
scan zero m key o best = some (miss best o)
scan (suc n) m key o best = elim (inside m o) [
  | false ↦ none
  | true ↦
      let next = o + k_info_size + (get_info_at m o).key_len in
      elim (cmp_key (key_at m o) key) [
        | equal ↦ some (hit o)
        | less ↦ scan n m key next best
        | greater ↦ scan n m key next (better m best o)
      ]
]

abbrev pub no_info : KInfo
no_info = record { left_child_block_id = 0; block_id = 0; row_idx = 0; key_len = 0 }

-- `_find_pos`: the position, or `none` for the null pointer, and the node, which has an empty record
-- put behind its last one if that is the position. The outer `none` is a write or a read behind the
-- end of the node.
unfoldable pub find_pos : Memory → Bytes → Option (Option ℕ × Memory)
unfolding scan put_info_at
find_pos m key = do
  s ← scan (record_count m) m key head_size none
  elim s [
    | hit o ↦ some (some o, m)
    | miss (some o) end ↦ some (some o, m)
    | miss none end ↦
        if leb (k_info_size + length key) (node_len - head_size)
        then (if leb (end + k_info_size) node_len
            then some (some end, put_info_at m end no_info)
            else none)
        else some (none, m)
  ]
