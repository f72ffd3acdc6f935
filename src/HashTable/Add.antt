-- ===== src/HashTable/Add.antt =====
-- pingkv/src/tool/hashtable.h: `add_or_replace`.
use mathlib.Core.Path.{subst}
use pingkv.Base.{
  ℕ, ◌+◌, ◌≤◌, ◌≡◌, refl, sym, ap, ◌∙◌, Bool, true, false, Option, none, some, ◌==◌, if◌then◌else◌,
  arith, List, [], ◌∷◌, ◌++◌,
}
use pingkv.Base.Int.{ℤ, add_to}
use pingkv.Base.Links.{Distinct, count, count_head, count-append, absent_head}
use pingkv.LinkList.{Node, LinkList, append, contains}
use pingkv.LinkList.Links.{Holds, ptrs, ptrs-append}
use pingkv.LinkList.Append.{append-Holds}
use pingkv.HashTable.{HashTable, Element, put_elem, comp_elem, bucket_of, add_or_replace}
use pingkv.HashTable.Rows.{
  Cell, cells, cells-append, Alive, Alive-append, Alive-left, Alive-right, match_row, node_of,
  IsAlive, Matched, Matched-match_row, Stores,
}
use pingkv.HashTable.Change.{
  put_at, put_at_all, Alive-others, Alive-put_elem, put_row, put_row-none, put_row-match_row,
}
use pingkv.HashTable.Find.{row_no, bucket_of-Stores, contains-Stores, cell_node, cell-IsAlive}

abbrev pub is_none {ℓ} : {A : Type ℓ} → Option A → Bool
is_none none = true
is_none (some c) = false

abbrev pub one_if : Bool → ℕ
one_if b = if b then 1 else 0

-- The node of a cell is in no other cell of its row.
pub absent_others :
    {K V : Type 0} (rows : List (Cell K V)) (before after : List (Cell K V)) (c : Cell K V)
    → rows ≡ before ++ c ∷ after
    → Distinct (ptrs (cells rows))
    → (count c.node (ptrs (cells before)) ≡ 0) × (count c.node (ptrs (cells after)) ≡ 0)
absent_others rows before after c e d =
    let whole : ptrs (cells rows) ≡ ptrs (cells before) ++ c.node ∷ ptrs (cells after) =
      ap (λ z. ptrs (cells z)) e
      ∙ ap ptrs (cells-append before (c ∷ after))
      ∙ ptrs-append (cells before) (cells (c ∷ after)) in
    let split : (q : ℕ)
        → count q (ptrs (cells before)) + count q (c.node ∷ ptrs (cells after)) ≤ 1 =
      λ q.
        subst (λ n. n ≤ 1)
          (ap (count q) whole ∙ count-append q (ptrs (cells before)) (c.node ∷ ptrs (cells after)))
          (d q) in
    (
      omega (arith, split c.node, count_head c.node (ptrs (cells after))),
      absent_head c.node (ptrs (cells after)) λ q. omega (arith, split q),
    )

module _ {K V : Type 0} (comp : K → K → ℤ) (hash : K → ℕ) (k : K) (v : V) where
  abbrev pub new_cell : HashTable K V → Cell K V
  new_cell t = record {
    node = (t.buckets (row_no comp hash t k)).allocated;
    elem = t.allocated;
    key = k;
    value = v;
  }

  -- The rows with the key set to the value.
  abbrev pub rows_put : HashTable K V → (ℕ → List (Cell K V)) → ℕ → List (Cell K V)
  rows_put t rows =
      put_at rows (row_no comp hash t k)
        (put_row comp k v (new_cell t) (rows (row_no comp hash t k)))

  -- The table after `add_or_replace`, with what it keeps.
  pub record Put (t : HashTable K V) (rows : ℕ → List (Cell K V)) (o : Option (Cell K V))
      : Type 0 where
    pub table : HashTable K V
    pub runs : add_or_replace comp hash k v t ≡ some (is_none o, table)
    pub stores : Stores hash table (rows_put t rows)
    pub size_ok : table.size ≡ add_to t.size (one_if (is_none o))
    pub count_same : table.bucket_count ≡ t.bucket_count
    pub default_same : table.default_value ≡ t.default_value

  module _ (t : HashTable K V) (rows : ℕ → List (Cell K V)) (s : Stores hash t rows) where
    abbrev no : ℕ
    no = row_no comp hash t k

    abbrev fresh : Element K V
    fresh = record { k = k; v = v }

    -- The two ways through the code.
    new_runs :
        (i : ℕ) (l : LinkList (Option ℕ))
        → bucket_of comp hash t k ≡ some i
        → contains
            (comp_elem comp (put_elem t.elems t.allocated (some fresh)))
            (some t.allocated)
            (t.buckets i)
          ≡ some none
        → append (some t.allocated) (t.buckets i) ≡ some l
        → add_or_replace comp hash k v t
          ≡ some (
            true,
            record t {
              buckets = put_at t.buckets i l;
              elems = put_elem t.elems t.allocated (some fresh);
              allocated = t.allocated + 1;
              size = add_to t.size 1;
            },
          )
    unfolding add_or_replace
    new_runs i l b h run = rw (b, h, run) refl

    -- The elements with the new one freed and the given one overwritten.
    abbrev overwritten : ℕ → ℕ → Option (Element K V)
    overwritten e q =
        if q == e
        then some fresh
        else put_elem (put_elem t.elems t.allocated (some fresh)) t.allocated none q

    found_runs :
        (i n e : ℕ) (m : Node (Option ℕ)) (x : Element K V)
        → bucket_of comp hash t k ≡ some i
        → contains
            (comp_elem comp (put_elem t.elems t.allocated (some fresh)))
            (some t.allocated)
            (t.buckets i)
          ≡ some (some n)
        → (t.buckets i).nodes n ≡ some m
        → m.elem ≡ some e
        → put_elem (put_elem t.elems t.allocated (some fresh)) t.allocated none e ≡ some x
        → add_or_replace comp hash k v t
          ≡ some (
            false,
            record t { elems = overwritten e; allocated = t.allocated + 1; size = add_to t.size 0 },
          )
    unfolding add_or_replace
    found_runs i n e m x b h there same held = rw (b, h, there, same, held) refl

    Put-none : match_row comp k (rows no) ≡ none → Put t rows none
    Put-none m =
        let b = bucket_of-Stores comp hash t rows k s in
        let h = contains-Stores comp hash t rows k v no s in
        let (l, run, held, _) =
          append-Holds (t.buckets no) (cells (rows no)) (some t.allocated) (s.lists no) in
        let row : put_row comp k v (new_cell t) (rows no) ≡ rows no ++ new_cell t ∷ [] =
          put_row-none comp k v (new_cell t) (rows no) m in
        let elems = put_elem t.elems t.allocated (some fresh) in
        let owner = put_at s.owner t.allocated (no, (new_cell t).node) in
        record {
          table = record t {
            buckets = put_at t.buckets no l;
            elems = elems;
            allocated = t.allocated + 1;
            size = add_to t.size 1;
          };
          runs = new_runs no l b (h ∙ ap (λ o. some (node_of comp k o)) m) run;
          stores = record {
            power = s.power;
            owner = owner;
            lists =
                put_at_all (λ j x rs. Holds x (cells rs)) t.buckets rows no l
                  (put_row comp k v (new_cell t) (rows no))
                  (subst (Holds l) (sym (ap cells row ∙ cells-append (rows no) (new_cell t ∷ [])))
                    held)
                  λ j _. s.lists j;
            alive =
                put_at_all (λ j _ rs. Alive elems owner (t.allocated + 1) j rs) t.buckets rows no l
                  (put_row comp k v (new_cell t) (rows no))
                  (subst (Alive elems owner (t.allocated + 1) no) (sym row) (
                    Alive-append elems owner (t.allocated + 1) no (rows no) (new_cell t ∷ [])
                      (Alive-put_elem t.elems s.owner t.allocated no (new_cell t).node no fresh
                        (rows no) (s.alive no))
                      (
                        record { holds = ground arith; owned = ground arith; old = omega arith },
                        tt,
                      )))
                  λ j _.
                    Alive-put_elem t.elems s.owner t.allocated no (new_cell t).node j fresh (rows j)
                      (s.alive j);
          };
          size_ok = refl;
          count_same = refl;
          default_same = refl;
        }

    -- The rows and the elements after the cell that matches is overwritten.
    module _ (c : Cell K V) (f : Matched comp k (rows no) c) where
      abbrev written : Cell K V
      written = record c { key = k; value = v }

      written_row : put_row comp k v (new_cell t) (rows no) ≡ f.before ++ written ∷ f.after
      written_row =
          ap (put_row comp k v (new_cell t)) f.splits
          ∙ put_row-match_row comp k v (new_cell t) c f.before f.after f.first f.equal

      written-Holds : (j : ℕ) → Holds (t.buckets j) (cells (rows_put t rows j))
      written-Holds =
          let same_cells : cells (rows no) ≡ cells (f.before ++ written ∷ f.after) =
            ap cells f.splits
            ∙ cells-append f.before (c ∷ f.after)
            ∙ sym (cells-append f.before (written ∷ f.after)) in
          put_at_all (λ j _ rs. Holds (t.buckets j) (cells rs)) t.buckets rows no (t.buckets no)
            (put_row comp k v (new_cell t) (rows no))
            (subst (Holds (t.buckets no)) (same_cells ∙ sym (ap cells written_row)) (s.lists no))
            λ j _. s.lists j

      written-Alive :
          (j : ℕ) → Alive (overwritten c.elem) s.owner (t.allocated + 1) j (rows_put t rows j)
      written-Alive =
          let elems = overwritten c.elem in
          let al = cell-IsAlive comp hash t rows no f.before f.after c f.splits s in
          let lt = al.old in
          let absent = absent_others (rows no) f.before f.after c f.splits (s.lists no).distinct in
          let others =
            Alive-others t.elems elems s.owner t.allocated (t.allocated + 1) no c (omega arith)
              al.owned λ q ne old. ground (arith, ne, old) in
          let whole = subst (Alive t.elems s.owner t.allocated no) f.splits (s.alive no) in
          let back =
            others no f.before (λ _. absent.0)
              (Alive-left t.elems s.owner t.allocated no f.before (c ∷ f.after) whole) in
          let here : IsAlive elems s.owner (t.allocated + 1) no written = record {
            holds = ground arith;
            owned = al.owned;
            old = omega (arith, lt);
          } in
          let front =
            others no f.after (λ _. absent.1)
              ((Alive-right t.elems s.owner t.allocated no f.before (c ∷ f.after) whole).1) in
          put_at_all (λ j _ rs. Alive elems s.owner (t.allocated + 1) j rs) t.buckets rows no
            (t.buckets no) (put_row comp k v (new_cell t) (rows no))
            (subst (Alive elems s.owner (t.allocated + 1) no) (sym written_row) (
              Alive-append elems s.owner (t.allocated + 1) no f.before (written ∷ f.after) back
                (here, front)))
            λ j ne. others j (rows j) (λ e. absurd (ne e)) (s.alive j)

    Put-some : (c : Cell K V) → match_row comp k (rows no) ≡ some c → Put t rows (some c)
    Put-some c m =
        let b = bucket_of-Stores comp hash t rows k s in
        let h = contains-Stores comp hash t rows k v no s in
        let f = Matched-match_row comp k c (rows no) m in
        let (n, there, same) = cell_node comp hash t rows no f.before f.after c f.splits s in
        let al = cell-IsAlive comp hash t rows no f.before f.after c f.splits s in
        let held = al.holds in
        let lt = al.old in
        record {
          table = record t {
            elems = overwritten c.elem;
            allocated = t.allocated + 1;
            size = add_to t.size 0;
          };
          runs =
              found_runs no c.node c.elem n (record { k = c.key; v = c.value }) b
                (h ∙ ap (λ o. some (node_of comp k o)) m) there same (ground (arith, held, lt));
          stores = record {
            power = s.power;
            owner = s.owner;
            lists = written-Holds c f;
            alive = written-Alive c f;
          };
          size_ok = refl;
          count_same = refl;
          default_same = refl;
        }

    Put-match_row : (o : Option (Cell K V)) → match_row comp k (rows no) ≡ o → Put t rows o
    Put-match_row none m = Put-none m
    Put-match_row (some c) m = Put-some c m

    -- `add_or_replace` on a table that stores the rows is defined, sets the value of the first key
    -- that compares equal or puts the key at the end of its row, and counts and reports a new key.
    pub add_or_replace-Put : Put t rows (match_row comp k (rows no))
    add_or_replace-Put = Put-match_row (match_row comp k (rows no)) refl
