-- ===== src/HashTable/Map.antt =====
-- pingkv/src/tool/hashtable.h: the table as a map from keys to values.
use pingkv.Base.{
  ℕ, ◌+◌, ◌%◌, ◌≤◌, ◌≡◌, refl, sym, ap, ◌∙◌, Bool, true, false, not, ◌&&◌, none, some, ◌==◌,
  if◌then◌else◌, arith, List, [], ◌∷◌,
}
use pingkv.Base.Int.{ℤ, is_zero}
use pingkv.HashTable.{HashTable, find, add_or_replace, del}
use pingkv.HashTable.Rows.{Cell, match_row, Stores}
use pingkv.HashTable.Change.{put_row, drop_row}
use pingkv.HashTable.Find.{row_no, lookup, value_or, find-lookup}
use pingkv.HashTable.Add.{is_none, new_cell, rows_put, add_or_replace-Put}
use pingkv.HashTable.Remove.{rows_drop, del-Dropped}

-- What the callbacks of a table owe it: to compare equal is an equivalence, and equal keys have one
-- hash.
pub record Callbacks {K : Type 0} (comp : K → K → ℤ) (hash : K → ℕ) : Type 0 where
  pub comp_self : (a : K) → is_zero (comp a a) ≡ true
  pub comp_comm : (a b : K) → is_zero (comp a b) ≡ is_zero (comp b a)
  pub comp_trans : (a b c : K) → is_zero (comp a b) ≡ true → is_zero (comp a c) ≡ is_zero (comp b c)
  pub hash_same : (a b : K) → is_zero (comp a b) ≡ true → hash a ≡ hash b

module _ {K V : Type 0} (comp : K → K → ℤ) where
  -- How many keys of a row compare equal to the given one.
  abbrev pub matches : K → List (Cell K V) → ℕ
  matches k [] = 0
  matches k (c ∷ rs) = (if is_zero (comp c.key k) then 1 else 0) + matches k rs

  match_row-none : (k : K) (rs : List (Cell K V)) → matches k rs ≡ 0 → match_row comp k rs ≡ none
  match_row-none k [] h = refl
  match_row-none k (c ∷ rs) h = let ih = match_row-none k rs in ground (arith, h, ih)

  module _ (hash : K → ℕ) (cb : Callbacks comp hash) (k k' : K) where
    value-put_row :
        (d v : V) (new : Cell K V) (rs : List (Cell K V))
        → new.key ≡ k
        → new.value ≡ v
        → value_or comp hash d (match_row comp k' (put_row comp k v new rs))
          ≡ (if is_zero (comp k k') then v else value_or comp hash d (match_row comp k' rs))
    value-put_row d v new [] e f = ground (arith, e, f)
    value-put_row d v new (c ∷ rs) e f =
        let ih = value-put_row d v new rs e f in
        let t₁ = cb.comp_trans c.key k k' in
        let t₂ = cb.comp_trans k k' c.key in
        let s₁ = cb.comp_comm k c.key in
        let s₂ = cb.comp_comm k' c.key in ground (arith, ih, t₁, t₂, s₁, s₂)

    matches-put_row :
        (v : V) (new : Cell K V) (rs : List (Cell K V))
        → new.key ≡ k
        → matches k' (put_row comp k v new rs)
          ≡ (if is_zero (comp k k') && (matches k' rs == 0) then 1 else matches k' rs)
    matches-put_row v new [] e = ground (arith, e)
    matches-put_row v new (c ∷ rs) e =
        let ih = matches-put_row v new rs e in
        let t₁ = cb.comp_trans c.key k k' in
        let t₂ = cb.comp_trans k k' c.key in
        let s₁ = cb.comp_comm k c.key in
        let s₂ = cb.comp_comm k' c.key in ground (arith, ih, t₁, t₂, s₁, s₂)

    matches-drop_row :
        (rs : List (Cell K V))
        → matches k' rs ≤ 1
        → matches k' (drop_row comp k rs) ≡ (if is_zero (comp k k') then 0 else matches k' rs)
    matches-drop_row [] h = ground arith
    matches-drop_row (c ∷ rs) h =
        let ih = matches-drop_row rs in
        let t₁ = cb.comp_trans c.key k k' in
        let t₂ = cb.comp_trans k k' c.key in
        let s₁ = cb.comp_comm k c.key in
        let s₂ = cb.comp_comm k' c.key in ground (arith, h, ih, t₁, t₂, s₁, s₂)

    value-drop_row :
        (d : V) (rs : List (Cell K V))
        → is_zero (comp k k') ≡ false
        → value_or comp hash d (match_row comp k' (drop_row comp k rs))
          ≡ value_or comp hash d (match_row comp k' rs)
    value-drop_row d [] h = refl
    value-drop_row d (c ∷ rs) h =
        let ih = value-drop_row d rs h in
        let t₁ = cb.comp_trans c.key k k' in ground (arith, h, ih, t₁)

-- The table stores the rows, and no row has a key twice.
pub record IsMap {K V : Type 0} (comp : K → K → ℤ) (hash : K → ℕ) (t : HashTable K V)
    (rows : ℕ → List (Cell K V)) : Type 0 where
  pub stores : Stores hash t rows
  pub unique : (i : ℕ) (k : K) → matches comp k (rows i) ≤ 1

some_if {ℓ} :
    {A : Type ℓ} (b : Bool) (x y : A) → some (if b then x else y) ≡ (if b then some x else some y)
some_if true x y = refl
some_if false x y = refl

module _ {K V : Type 0} (comp : K → K → ℤ) (hash : K → ℕ) (cb : Callbacks comp hash) where
  looked_up :
      (t t' : HashTable K V) (k : K) (rows : ℕ → List (Cell K V))
      → t'.bucket_count ≡ t.bucket_count
      → t'.default_value ≡ t.default_value
      → some (lookup comp hash t' rows k)
        ≡ some (value_or comp hash t.default_value (match_row comp k (rows (row_no comp hash t k))))
  looked_up t t' k rows e f = rw (e, f) refl

  module _ (t : HashTable K V) (rows : ℕ → List (Cell K V)) (m : IsMap comp hash t rows)
      (k : K) where
    same_row : (k' : K) → is_zero (comp k k') ≡ true → row_no comp hash t k' ≡ row_no comp hash t k
    same_row k' h = ap (λ n. n % t.bucket_count) (sym (cb.hash_same k k' h))

    unique_put : (v : V) (i : ℕ) (k' : K) → matches comp k' (rows_put comp hash k v t rows i) ≤ 1
    unique_put v i k' =
        let no = row_no comp hash t k in
        let u = m.unique i k' in
        let u' = m.unique no k' in
        let p = matches-put_row comp hash cb k k' v (new_cell comp hash k v t) (rows no) refl in
        ground (arith, u, u', p)

    lookup_put :
        (v d : V) (k' : K) (j : ℕ)
        → j ≡ row_no comp hash t k'
        → value_or comp hash d (match_row comp k' (rows_put comp hash k v t rows j))
          ≡ (if is_zero (comp k k') then v else value_or comp hash d (match_row comp k' (rows j)))
    lookup_put v d k' j e =
        let no = row_no comp hash t k in
        let p =
          value-put_row comp hash cb k k' d v (new_cell comp hash k v t) (rows no) refl refl in
        let q = same_row k' in
        let r : j ≡ no → rows j ≡ rows no = ap rows in ground (arith, e, p, q, r)

    -- `add_or_replace` keeps a map a map; after it `find` returns the new value for the keys that
    -- compare equal to the key, and what it returned before for the others.
    pub find-add_or_replace :
        (v : V) (k' : K) (unset : V)
        → (t' : HashTable K V) × (rows' : ℕ → List (Cell K V)) × (add_or_replace comp hash k v t
            ≡ some (is_none (match_row comp k (rows (row_no comp hash t k))), t'))
          × IsMap comp hash t' rows'
          × (find comp hash unset k' t'
              ≡ (if is_zero (comp k k') then some v else find comp hash unset k' t))
    find-add_or_replace v k' unset =
        let p = add_or_replace-Put comp hash k v t rows m.stores in
        let l = lookup_put v t.default_value k' (row_no comp hash t k') refl in
        let before = find-lookup comp hash t rows k' unset m.stores in
        let after =
          find-lookup comp hash p.table (rows_put comp hash k v t rows) k' unset p.stores in
        (
          p.table,
          rows_put comp hash k v t rows,
          p.runs,
          record { stores = p.stores; unique = unique_put v },
          after
              ∙ looked_up t p.table k' (rows_put comp hash k v t rows) p.count_same p.default_same
              ∙ ap some l
              ∙ some_if (is_zero (comp k k')) v (lookup comp hash t rows k')
              ∙ rw before refl,
        )

    unique_drop :
        (unset : V) (i : ℕ) (k' : K) → matches comp k' (rows_drop comp hash unset k t rows i) ≤ 1
    unique_drop unset i k' =
        let no = row_no comp hash t k in
        let u = m.unique i k' in
        let u' = m.unique no k' in
        let p = matches-drop_row comp hash cb k k' (rows no) u' in ground (arith, u, u', p)

    lookup_drop :
        (unset d : V) (k' : K) (j : ℕ)
        → j ≡ row_no comp hash t k'
        → value_or comp hash d (match_row comp k' (rows_drop comp hash unset k t rows j))
          ≡ (if is_zero (comp k k') then d else value_or comp hash d (match_row comp k' (rows j)))
    lookup_drop unset d k' j e =
        let no = row_no comp hash t k in
        let u = m.unique no k' in
        let p = matches-drop_row comp hash cb k k' (rows no) u in
        let z = match_row-none comp k' (drop_row comp k (rows no)) in
        let o = value-drop_row comp hash cb k k' d (rows no) in
        let q = same_row k' in
        let r : j ≡ no → rows j ≡ rows no = ap rows in ground (arith, e, p, q, r, z, o)

    -- `del` keeps a map a map; after it `find` returns the default value for the keys that compare
    -- equal to the key, and what it returned before for the others.
    pub find-del :
        (k' : K) (unset : V)
        → (t' : HashTable K V) × (rows' : ℕ → List (Cell K V)) × (del comp hash unset k t
            ≡ some (not (is_none (match_row comp k (rows (row_no comp hash t k)))), t'))
          × IsMap comp hash t' rows'
          × (find comp hash unset k' t'
              ≡ (if is_zero (comp k k') then some t.default_value else find comp hash unset k' t))
    find-del k' unset =
        let p = del-Dropped comp hash unset k t rows m.stores in
        let l = lookup_drop unset t.default_value k' (row_no comp hash t k') refl in
        let before = find-lookup comp hash t rows k' unset m.stores in
        let after =
          find-lookup comp hash p.table (rows_drop comp hash unset k t rows) k' unset p.stores in
        (
          p.table,
          rows_drop comp hash unset k t rows,
          p.runs,
          record { stores = p.stores; unique = unique_drop unset },
          after
              ∙ looked_up t p.table k' (rows_drop comp hash unset k t rows) p.count_same
                  p.default_same
              ∙ ap some l
              ∙ some_if (is_zero (comp k k')) t.default_value (lookup comp hash t rows k')
              ∙ rw before refl,
        )
