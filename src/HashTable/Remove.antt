-- ===== src/HashTable/Remove.antt =====
-- pingkv/src/tool/hashtable.h: `del`.
use mathlib.Core.Path.{subst}
use pingkv.Base.{
  ℕ, ◌≡◌, refl, sym, ap, ◌∙◌, true, false, not, Option, none, some, ◌==◌, if◌then◌else◌, arith,
  List, ◌∷◌, ◌++◌,
}
use pingkv.Base.Int.{ℤ, take_from}
use pingkv.LinkList.{Node, LinkList, del_node, contains}
use pingkv.LinkList.Links.{Holds}
use pingkv.LinkList.Del.{del_node-Holds}
use pingkv.HashTable.{HashTable, Element, put_elem, comp_elem, bucket_of, del}
use pingkv.HashTable.Rows.{
  Cell, cells, cells-append, Alive, Alive-append, Alive-left, Alive-right, match_row, node_of,
  Matched, Matched-match_row, Stores,
}
use pingkv.HashTable.Change.{
  put_at, put_at_all, Alive-others, drop_row, drop_row-match_row, drop_row-none,
}
use pingkv.HashTable.Find.{row_no, bucket_of-Stores, contains-Stores, cell_node, cell-IsAlive}
use pingkv.HashTable.Add.{is_none, absent_others}

abbrev pub size_after {ℓ} : {A : Type ℓ} → ℤ → Option A → ℤ
size_after n none = n
size_after n (some c) = take_from n 1

module _ {K V : Type 0} (comp : K → K → ℤ) (hash : K → ℕ) (unset : V) (k : K) where
  -- The rows without the key.
  abbrev pub rows_drop : HashTable K V → (ℕ → List (Cell K V)) → ℕ → List (Cell K V)
  rows_drop t rows =
      put_at rows (row_no comp hash t k) (drop_row comp k (rows (row_no comp hash t k)))

  -- The table after `del`, with what it keeps.
  pub record Dropped (t : HashTable K V) (rows : ℕ → List (Cell K V)) (o : Option (Cell K V))
      : Type 0 where
    pub table : HashTable K V
    pub runs : del comp hash unset k t ≡ some (not (is_none o), table)
    pub stores : Stores hash table (rows_drop t rows)
    pub size_ok : table.size ≡ size_after t.size o
    pub count_same : table.bucket_count ≡ t.bucket_count
    pub default_same : table.default_value ≡ t.default_value

  module _ (t : HashTable K V) (rows : ℕ → List (Cell K V)) (s : Stores hash t rows) where
    abbrev no : ℕ
    no = row_no comp hash t k

    abbrev probe : ℕ → Option (Element K V)
    probe = put_elem t.elems t.allocated (some (record { k = k; v = unset }))

    abbrev freed : ℕ → ℕ → Option (Element K V)
    freed e q = if q == e then none else t.elems q

    none_runs :
        (i : ℕ)
        → bucket_of comp hash t k ≡ some i
        → contains (comp_elem comp probe) (some t.allocated) (t.buckets i) ≡ some none
        → del comp hash unset k t ≡ some (false, t)
    unfolding del
    none_runs i b h = rw (b, h) refl

    found_runs :
        (i n e : ℕ) (m : Node (Option ℕ)) (l : LinkList (Option ℕ))
        → bucket_of comp hash t k ≡ some i
        → contains (comp_elem comp probe) (some t.allocated) (t.buckets i) ≡ some (some n)
        → (t.buckets i).nodes n ≡ some m
        → m.elem ≡ some e
        → del_node n (t.buckets i) ≡ some l
        → del comp hash unset k t
          ≡ some (
            true,
            record t { buckets = put_at t.buckets i l; elems = freed e; size = take_from t.size 1 },
          )
    unfolding del
    found_runs i n e m l b h there same run = rw (b, h, run, there, same) refl

    drop_new : match_row comp k (rows no) ≡ none → Dropped t rows none
    drop_new m =
        let b = bucket_of-Stores comp hash t rows k s in
        let h = contains-Stores comp hash t rows k unset no s in
        let row = sym (drop_row-none comp k (rows no) m) in
        record {
          table = t;
          runs = none_runs no b (h ∙ ap (λ o. some (node_of comp k o)) m);
          stores = record {
            power = s.power;
            owner = s.owner;
            lists =
                put_at_all (λ j _ rs. Holds (t.buckets j) (cells rs)) t.buckets rows no
                  (t.buckets no) (drop_row comp k (rows no))
                  (subst (λ rs. Holds (t.buckets no) (cells rs)) row (s.lists no)) λ j _. s.lists j;
            alive =
                put_at_all (λ j _ rs. Alive t.elems s.owner t.allocated j rs) t.buckets rows no
                  (t.buckets no) (drop_row comp k (rows no))
                  (subst (Alive t.elems s.owner t.allocated no) row (s.alive no)) λ j _. s.alive j;
          };
          size_ok = refl;
          count_same = refl;
          default_same = refl;
        }

    -- The rows and the elements after the cell that matches is taken out.
    module _ (c : Cell K V) (f : Matched comp k (rows no) c) where
      shorter_row : drop_row comp k (rows no) ≡ f.before ++ f.after
      shorter_row =
          ap (drop_row comp k) f.splits
          ∙ drop_row-match_row comp k c f.before f.after f.first f.equal

      shorter-Holds :
          (l : LinkList (Option ℕ))
          → Holds l (cells f.before ++ cells f.after)
          → (j : ℕ) → Holds (put_at t.buckets no l j) (cells (rows_drop t rows j))
      shorter-Holds l holds =
          put_at_all (λ j x rs. Holds x (cells rs)) t.buckets rows no l (drop_row comp k (rows no))
            (subst (Holds l) (sym (ap cells shorter_row ∙ cells-append f.before f.after)) holds)
            λ j _. s.lists j

      shorter-Alive : (j : ℕ) → Alive (freed c.elem) s.owner t.allocated j (rows_drop t rows j)
      shorter-Alive =
          let elems = freed c.elem in
          let al = cell-IsAlive comp hash t rows no f.before f.after c f.splits s in
          let absent = absent_others (rows no) f.before f.after c f.splits (s.lists no).distinct in
          let others =
            Alive-others t.elems elems s.owner t.allocated t.allocated no c (omega arith) al.owned
              λ q ne old. ground (arith, ne) in
          let whole = subst (Alive t.elems s.owner t.allocated no) f.splits (s.alive no) in
          let back =
            others no f.before (λ _. absent.0)
              (Alive-left t.elems s.owner t.allocated no f.before (c ∷ f.after) whole) in
          let front =
            others no f.after (λ _. absent.1)
              ((Alive-right t.elems s.owner t.allocated no f.before (c ∷ f.after) whole).1) in
          put_at_all (λ j _ rs. Alive elems s.owner t.allocated j rs) t.buckets rows no
            (t.buckets no) (drop_row comp k (rows no))
            (subst (Alive elems s.owner t.allocated no) (sym shorter_row)
              (Alive-append elems s.owner t.allocated no f.before f.after back front))
            λ j ne. others j (rows j) (λ e. absurd (ne e)) (s.alive j)

    drop_found : (c : Cell K V) → match_row comp k (rows no) ≡ some c → Dropped t rows (some c)
    drop_found c m =
        let b = bucket_of-Stores comp hash t rows k s in
        let h = contains-Stores comp hash t rows k unset no s in
        let f = Matched-match_row comp k c (rows no) m in
        let (n, there, same) = cell_node comp hash t rows no f.before f.after c f.splits s in
        let held =
          subst (Holds (t.buckets no)) (ap cells f.splits ∙ cells-append f.before (c ∷ f.after))
            (s.lists no) in
        let (l, run, holds, _, _) =
          del_node-Holds (t.buckets no) (cells f.before) (cells f.after) c.node (some c.elem)
            held in
        record {
          table = record t {
            buckets = put_at t.buckets no l;
            elems = freed c.elem;
            size = take_from t.size 1;
          };
          runs =
              found_runs no c.node c.elem n l b (h ∙ ap (λ o. some (node_of comp k o)) m) there same
                run;
          stores = record {
            power = s.power;
            owner = s.owner;
            lists = shorter-Holds c f l holds;
            alive = shorter-Alive c f;
          };
          size_ok = refl;
          count_same = refl;
          default_same = refl;
        }

    drop_of : (o : Option (Cell K V)) → match_row comp k (rows no) ≡ o → Dropped t rows o
    drop_of none m = drop_new m
    drop_of (some c) m = drop_found c m

    -- `del` on a table that stores the rows is defined, takes the first key that compares equal out
    -- of its row, with its element and its node, and reports whether there was one.
    pub del-Dropped : Dropped t rows (match_row comp k (rows no))
    del-Dropped = drop_of (match_row comp k (rows no)) refl
