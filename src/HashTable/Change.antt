-- ===== src/HashTable/Change.antt =====
-- pingkv/src/tool/hashtable.h: what a change of one bucket leaves as it was.
use pingkv.Base.{
  ℕ, ◌+◌, ◌≤◌, ◌<◌, ◌≡◌, ◌≢◌, refl, sym, ap, ◌∙◌, Bool, true, false, Option, none, some, ◌==◌,
  if◌then◌else◌, arith, List, [], ◌∷◌, ◌++◌,
}
use pingkv.Base.Int.{ℤ, is_zero}
use pingkv.Base.Links.{count, count_head, count_tail}
use pingkv.LinkList.Links.{ptrs}
use pingkv.HashTable.{Element, put_elem}
use pingkv.HashTable.Rows.{Cell, cells, IsAlive, Alive, match_row}

-- A family that is changed at one index.
abbrev pub put_at {ℓ} : {A : Type ℓ} → (ℕ → A) → ℕ → A → ℕ → A
put_at f i a j = if j == i then a else f j

put_at_test :
    {A B : Type 0} (P : ℕ → A → B → Type 0) (f : ℕ → A) (g : ℕ → B) (i : ℕ) (a : A) (b : B)
    → P i a b
    → ((j : ℕ) → j ≢ i → P j (f j) (g j))
    → (j : ℕ) (t : Bool) → (j == i) ≡ t
    → P j (put_at f i a j) (put_at g i b j)
put_at_test P f g i a b here other j true e =
    let same : j ≡ i = ground (arith, e) in rw (e, same) here
put_at_test P f g i a b here other j false e =
    rw e (other j λ same. absurd (ground (arith, e, same)))

pub put_at_all :
    {A B : Type 0} (P : ℕ → A → B → Type 0) (f : ℕ → A) (g : ℕ → B) (i : ℕ) (a : A) (b : B)
    → P i a b
    → ((j : ℕ) → j ≢ i → P j (f j) (g j))
    → (j : ℕ) → P j (put_at f i a j) (put_at g i b j)
put_at_all P f g i a b here other j = put_at_test P f g i a b here other j (j == i) refl

module _ {K V : Type 0} where
  pub Alive-IsAlive :
      (s s' : ℕ → Option (Element K V)) (o o' : ℕ → ℕ × ℕ) (a a' j : ℕ) (rs : List (Cell K V))
      → ((d : Cell K V)
          → 1 ≤ count d.node (ptrs (cells rs))
          → IsAlive s o a j d
          → IsAlive s' o' a' j d)
      → Alive s o a j rs
      → Alive s' o' a' j rs
  Alive-IsAlive s s' o o' a a' j [] f h = h
  Alive-IsAlive s s' o o' a a' j (c ∷ rs) f (x, h) = (
    f c (count_head c.node (ptrs (cells rs))) x,
    Alive-IsAlive s s' o o' a a' j rs (λ d n. f d (count_tail c.node d.node (ptrs (cells rs)) n)) h,
  )

  -- A change of the element of one cell keeps the other cells.
  module _ (s s' : ℕ → Option (Element K V)) (o : ℕ → ℕ × ℕ) (a a' i : ℕ) (c : Cell K V)
      (le : a ≤ a') (own : o c.elem ≡ (i, c.node))
      (kept : (q : ℕ) → q ≢ c.elem → q < a → s' q ≡ s q) where
    pub Alive-others :
        (j : ℕ) (rs : List (Cell K V))
        → (j ≡ i → count c.node (ptrs (cells rs)) ≡ 0)
        → Alive s o a j rs
        → Alive s' o a' j rs
    Alive-others j rs absent = Alive-IsAlive s s' o o a a' j rs λ d n al.
        let apart : d.elem ≢ c.elem = λ e.
          let same : (j, d.node) ≡ (i, c.node) = sym al.owned ∙ ap o e ∙ own in
          let z : count d.node (ptrs (cells rs)) ≡ count c.node (ptrs (cells rs)) =
            ap (λ p. count p (ptrs (cells rs))) (ap (λ x. x.1) same) in
          absurd (omega (arith, n, z, absent (ap (λ x. x.0) same))) in
        let lt = al.old in
        record {
          holds = kept d.elem apart al.old ∙ al.holds;
          owned = al.owned;
          old = omega (arith, lt, le);
        }

  -- A new element behind the others.
  pub Alive-put_elem :
      (s : ℕ → Option (Element K V)) (o : ℕ → ℕ × ℕ) (a i n j : ℕ) (e : Element K V)
      (rs : List (Cell K V))
      → Alive s o a j rs
      → Alive (put_elem s a (some e)) (put_at o a (i, n)) (a + 1) j rs
  Alive-put_elem s o a i n j e rs =
      Alive-IsAlive s (put_elem s a (some e)) o (put_at o a (i, n)) a (a + 1) j rs λ d _ al.
        let lt = al.old in
        let h = al.holds in
        let w = al.owned in
        record {
          holds = ground (arith, lt, h);
          owned = ground (arith, lt, w);
          old = omega (arith, lt);
        }

  module _ (comp : K → K → ℤ) (k : K) where
    -- The cells with the first match set to the key and the value, or a new cell at the end.
    abbrev pub put_row : V → Cell K V → List (Cell K V) → List (Cell K V)
    put_row v new [] = new ∷ []
    put_row v new (c ∷ rs) =
        let rest = put_row v new rs in
        if is_zero (comp c.key k) then record c { key = k; value = v } ∷ rs else c ∷ rest

    -- The cells without the first match.
    abbrev pub drop_row : List (Cell K V) → List (Cell K V)
    drop_row [] = []
    drop_row (c ∷ rs) = let rest = drop_row rs in if is_zero (comp c.key k) then rs else c ∷ rest

    pub put_row-none :
        (v : V) (new : Cell K V) (rs : List (Cell K V))
        → match_row comp k rs ≡ none
        → put_row v new rs ≡ rs ++ new ∷ []
    put_row-none v new [] h = refl
    put_row-none v new (c ∷ rs) h = let ih = put_row-none v new rs in ground (arith, h, ih)

    pub put_row-match_row :
        (v : V) (new c : Cell K V) (before after : List (Cell K V))
        → match_row comp k before ≡ none
        → is_zero (comp c.key k) ≡ true
        → put_row v new (before ++ c ∷ after) ≡ before ++ record c { key = k; value = v } ∷ after
    put_row-match_row v new c [] after h z = rw z refl
    put_row-match_row v new c (d ∷ before) after h z =
        let ih : match_row comp k before ≡ none → _ =
          λ f. put_row-match_row v new c before after f z in
        ground (arith, h, ih)

    pub drop_row-none : (rs : List (Cell K V)) → match_row comp k rs ≡ none → drop_row rs ≡ rs
    drop_row-none [] h = refl
    drop_row-none (c ∷ rs) h = let ih = drop_row-none rs in ground (arith, h, ih)

    pub drop_row-match_row :
        (c : Cell K V) (before after : List (Cell K V))
        → match_row comp k before ≡ none
        → is_zero (comp c.key k) ≡ true
        → drop_row (before ++ c ∷ after) ≡ before ++ after
    drop_row-match_row c [] after h z = rw z refl
    drop_row-match_row c (d ∷ before) after h z =
        let ih : match_row comp k before ≡ none → _ = λ f. drop_row-match_row c before after f z in
        ground (arith, h, ih)
