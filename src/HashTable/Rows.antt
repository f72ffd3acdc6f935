-- ===== src/HashTable/Rows.antt =====
-- pingkv/src/tool/hashtable.h: what a table holds.
use pingkv.Base.{
  ℕ, ◌<◌, ◌≡◌, refl, ap, Bool, true, false, Option, none, some, if◌then◌else◌, arith, List, [], ◌∷◌,
  ◌++◌,
}
use mathlib.Core.Path.{subst}
use pingkv.Base.Int.{ℤ, is_zero}
use pingkv.LinkList.Links.{Holds}
use pingkv.LinkList.Search.{first_match}
use pingkv.HashTable.{HashTable, Element, put_elem, comp_elem}
use pingkv.HashTable.Count.{IsPower}

-- A key with its value, the element that they are in and the node that leads to it.
pub record Cell (K V : Type 0) : Type 0 where
  pub node : ℕ
  pub elem : ℕ
  pub key : K
  pub value : V

module _ {K V : Type 0} where
  abbrev pub cells : List (Cell K V) → List (ℕ × Option ℕ)
  cells [] = []
  cells (c ∷ rs) = (c.node, some c.elem) ∷ cells rs

  -- The elements are allocated, none of them in two places.
  pub record IsAlive (s : ℕ → Option (Element K V)) (owner : ℕ → ℕ × ℕ) (a i : ℕ) (c : Cell K V)
      : Type 0 where
    pub holds : s c.elem ≡ some (record { k = c.key; v = c.value })
    pub owned : owner c.elem ≡ (i, c.node)
    pub old : c.elem < a

  abbrev pub Alive : (ℕ → Option (Element K V)) → (ℕ → ℕ × ℕ) → ℕ → ℕ → List (Cell K V) → Type 0
  Alive s owner a i [] = Unit {0}
  Alive s owner a i (c ∷ rs) = IsAlive s owner a i c × Alive s owner a i rs

  pub cells-append : (rs qs : List (Cell K V)) → cells (rs ++ qs) ≡ cells rs ++ cells qs
  cells-append [] qs = refl
  cells-append (c ∷ rs) qs = ap (◌∷◌ (c.node, some c.elem)) (cells-append rs qs)

  pub Alive-append :
      (s : ℕ → Option (Element K V)) (o : ℕ → ℕ × ℕ) (a i : ℕ) (rs qs : List (Cell K V))
      → Alive s o a i rs
      → Alive s o a i qs
      → Alive s o a i (rs ++ qs)
  Alive-append s o a i [] qs h k = k
  Alive-append s o a i (c ∷ rs) qs (x, h) k = (x, Alive-append s o a i rs qs h k)

  pub Alive-left :
      (s : ℕ → Option (Element K V)) (o : ℕ → ℕ × ℕ) (a i : ℕ) (rs qs : List (Cell K V))
      → Alive s o a i (rs ++ qs)
      → Alive s o a i rs
  Alive-left s o a i [] qs h = tt
  Alive-left s o a i (c ∷ rs) qs (x, h) = (x, Alive-left s o a i rs qs h)

  pub Alive-right :
      (s : ℕ → Option (Element K V)) (o : ℕ → ℕ × ℕ) (a i : ℕ) (rs qs : List (Cell K V))
      → Alive s o a i (rs ++ qs)
      → Alive s o a i qs
  Alive-right s o a i [] qs h = h
  Alive-right s o a i (c ∷ rs) qs (x, h) = Alive-right s o a i rs qs h

  module _ (comp : K → K → ℤ) (k : K) where
    -- The first of the cells whose key compares equal.
    abbrev pub match_row : List (Cell K V) → Option (Cell K V)
    match_row [] = none
    match_row (c ∷ rs) = let rest = match_row rs in if is_zero (comp c.key k) then some c else rest

    abbrev pub node_of : Option (Cell K V) → Option ℕ
    node_of none = none
    node_of (some c) = some c.node

    pub first_match-match_row :
        (s : ℕ → Option (Element K V)) (o : ℕ → ℕ × ℕ) (a i : ℕ) (x : V) (rs : List (Cell K V))
        → Alive s o a i rs
        → first_match
            (comp_elem comp (put_elem s a (some (record { k = k; v = x }))))
            (some a)
            (cells rs)
          ≡ some (node_of (match_row rs))
    unfolding comp_elem
    first_match-match_row s o a i x [] h = refl
    first_match-match_row s o a i x (c ∷ rs) (al, h) =
        let ih = first_match-match_row s o a i x rs h in
        let there = al.holds in let old = al.old in ground (arith, ih, there, old)

    -- What stands in front of and behind the cell that was found.
    pub record Matched (rs : List (Cell K V)) (c : Cell K V) : Type 0 where
      pub before : List (Cell K V)
      pub after : List (Cell K V)
      pub splits : rs ≡ before ++ c ∷ after
      pub equal : is_zero (comp c.key k) ≡ true
      pub first : match_row before ≡ none

    Matched-is_zero :
        (c d : Cell K V) (rs : List (Cell K V)) (b : Bool)
        → is_zero (comp d.key k) ≡ b
        → (match_row rs ≡ some c → Matched rs c)
        → match_row (d ∷ rs) ≡ some c
        → Matched (d ∷ rs) c
    Matched-is_zero c d rs true z rec h =
        let same : d ≡ c = ground (arith, z, h) in
        subst (Matched (d ∷ rs)) same
          (record { before = []; after = rs; splits = refl; equal = z; first = refl })
    Matched-is_zero c d rs false z rec h =
        let m = rec (ground (arith, z, h)) in
        let f = m.first in
        record {
          before = d ∷ m.before;
          after = m.after;
          splits = ap (◌∷◌ d) m.splits;
          equal = m.equal;
          first = ground (arith, z, f);
        }

    pub Matched-match_row :
        (c : Cell K V) (rs : List (Cell K V)) → match_row rs ≡ some c → Matched rs c
    Matched-match_row c [] h = absurd (ground (arith, h))
    Matched-match_row c (d ∷ rs) h =
        Matched-is_zero c d rs (is_zero (comp d.key k)) refl (Matched-match_row c rs) h

-- The table holds the rows, one for each bucket.
pub record Stores {K V : Type 0} (hash : K → ℕ) (t : HashTable K V) (rows : ℕ → List (Cell K V))
    : Type 0 where
  pub power : IsPower t.bucket_count
  pub owner : ℕ → ℕ × ℕ
  pub lists : (i : ℕ) → Holds (t.buckets i) (cells (rows i))
  pub alive : (i : ℕ) → Alive t.elems owner t.allocated i (rows i)
