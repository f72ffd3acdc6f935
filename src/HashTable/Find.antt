-- ===== src/HashTable/Find.antt =====
-- pingkv/src/tool/hashtable.h: `find`.
use mathlib.Core.Path.{subst}
use pingkv.Base.{ℕ, ◌%◌, ◌≡◌, refl, ap, ◌∙◌, Option, none, some, arith, List, ◌∷◌, ◌++◌}
use pingkv.Base.Int.{ℤ}
use pingkv.LinkList.{Node, contains}
use pingkv.LinkList.Links.{Elems, Elems-right, elem_of}
use pingkv.LinkList.Search.{contains-first_match}
use pingkv.HashTable.{HashTable, put_elem, comp_elem, bucket_of, find}
use pingkv.HashTable.Count.{bit_and-IsPower}
use pingkv.HashTable.Rows.{
  Cell, cells, cells-append, IsAlive, Alive, Alive-right, match_row, node_of, first_match-match_row,
  Matched-match_row, Stores,
}

pub elem_of-some :
    {T : Type 0} (o : Option (Node T)) (x : T)
    → elem_of o ≡ some x
    → (n : Node T) × (o ≡ some n) × (n.elem ≡ x)
elem_of-some none x h = absurd (ground (arith, h))
elem_of-some (some n) x h = (n, refl, ground (arith, h))

module _ {K V : Type 0} (comp : K → K → ℤ) (hash : K → ℕ) where
  -- The row that a key belongs to.
  abbrev pub row_no : HashTable K V → K → ℕ
  row_no t k = hash k % t.bucket_count

  pub bucket_of-Stores :
      (t : HashTable K V) (rows : ℕ → List (Cell K V)) (k : K)
      → Stores hash t rows
      → bucket_of comp hash t k ≡ some (row_no t k)
  unfolding bucket_of
  bucket_of-Stores t rows k s =
      let (e, lt) = bit_and-IsPower t.bucket_count (hash k) s.power in ground (arith, e, lt)

  pub contains-Stores :
      (t : HashTable K V) (rows : ℕ → List (Cell K V)) (k : K) (x : V) (i : ℕ)
      → Stores hash t rows
      → contains
          (comp_elem comp (put_elem t.elems t.allocated (some (record { k = k; v = x }))))
          (some t.allocated)
          (t.buckets i)
        ≡ some (node_of comp k (match_row comp k (rows i)))
  contains-Stores t rows k x i s =
      contains-first_match
        (comp_elem comp (put_elem t.elems t.allocated (some (record { k = k; v = x }))))
        (some t.allocated) (t.buckets i) (cells (rows i)) (s.lists i)
      ∙ first_match-match_row comp k t.elems s.owner t.allocated i x (rows i) (s.alive i)

  -- The node and the element of a cell of the table.
  pub cell_node :
      (t : HashTable K V) (rows : ℕ → List (Cell K V)) (i : ℕ) (before after : List (Cell K V))
      (c : Cell K V)
      → rows i ≡ before ++ c ∷ after
      → Stores hash t rows
      → (n : Node (Option ℕ)) × ((t.buckets i).nodes c.node ≡ some n) × (n.elem ≡ some c.elem)
  cell_node t rows i before after c e s =
      let els : Elems (t.buckets i).nodes (cells before ++ (c.node, some c.elem) ∷ cells after) =
        subst (Elems (t.buckets i).nodes) (ap cells e ∙ cells-append before (c ∷ after))
          (s.lists i).elems in
      elem_of-some ((t.buckets i).nodes c.node) (some c.elem) (
        (Elems-right (t.buckets i).nodes (cells before) ((c.node, some c.elem) ∷ cells after)
          els).0)

  pub cell-IsAlive :
      (t : HashTable K V) (rows : ℕ → List (Cell K V)) (i : ℕ) (before after : List (Cell K V))
      (c : Cell K V)
      → rows i ≡ before ++ c ∷ after
      → (s : Stores hash t rows) → IsAlive t.elems s.owner t.allocated i c
  cell-IsAlive t rows i before after c e s =
      (Alive-right t.elems s.owner t.allocated i before (c ∷ after)
        (subst (Alive t.elems s.owner t.allocated i) e (s.alive i))).0

  -- The value of the first cell that matches.
  abbrev pub value_or : V → Option (Cell K V) → V
  value_or d none = d
  value_or d (some c) = c.value

  abbrev pub lookup : HashTable K V → (ℕ → List (Cell K V)) → K → V
  lookup t rows k = value_or t.default_value (match_row comp k (rows (row_no t k)))

  find_cell :
      (t : HashTable K V) (rows : ℕ → List (Cell K V)) (k : K) (unset : V) (o : Option (Cell K V))
      → match_row comp k (rows (row_no t k)) ≡ o
      → Stores hash t rows
      → find comp hash unset k t ≡ some (value_or t.default_value o)
  unfolding find
  find_cell t rows k unset none m s =
      let b = bucket_of-Stores t rows k s in
      let c = contains-Stores t rows k unset (row_no t k) s in rw (b, c, m) refl
  find_cell t rows k unset (some c) m s =
      let b = bucket_of-Stores t rows k s in
      let h = contains-Stores t rows k unset (row_no t k) s in
      let f = Matched-match_row comp k c (rows (row_no t k)) m in
      let (n, there, same) = cell_node t rows (row_no t k) f.before f.after c f.splits s in
      let al = cell-IsAlive t rows (row_no t k) f.before f.after c f.splits s in
      let held = al.holds in rw (b, h, m, there, same, held) refl

  -- `find` in a table that stores the rows returns the value of the first key of its row that
  -- compares equal, and the default value if there is none.
  pub find-lookup :
      (t : HashTable K V) (rows : ℕ → List (Cell K V)) (k : K) (unset : V)
      → Stores hash t rows
      → find comp hash unset k t ≡ some (lookup t rows k)
  find-lookup t rows k unset s =
      find_cell t rows k unset (match_row comp k (rows (row_no t k))) refl s
