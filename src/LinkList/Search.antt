-- ===== src/LinkList/Search.antt =====
-- pingkv/src/tool/linklist.h: `contains` finds the first match.
use pingkv.Base.{
  ℕ, ◌≡◌, refl, sym, ap, ◌∙◌, Bool, true, false, Option, none, some, List, [], ◌∷◌, ◌++◌, length,
  arith, if◌then◌else◌,
}
use mathlib.Core.Path.{subst}
use pingkv.Base.Int.{ℤ, is_zero}
use pingkv.Base.Maybe.{◌>>=◌}
use pingkv.Base.Links.{head, Fwd}
use pingkv.LinkList.{Node, LinkList, contains_from, contains}
use pingkv.LinkList.Links.{ends, ptrs, Elems, elem_of, Holds}

module _ {T : Type 0} (comp : T → T → Option ℤ) (x : T) where
  -- The pointer of the first of the nodes whose data compares equal, every comparison up to it being
  -- defined.
  abbrev pub first_match : List (ℕ × T) → Option (Option ℕ)
  first_match [] = some none
  first_match ((p, y) ∷ cs) = do
    r ← comp y x
    let rest = first_match cs
    if is_zero r then some (some p) else rest

  contains_from-first_match :
      (s : ℕ → Option (Node T)) (cs : List (ℕ × T)) (b : Option ℕ)
      → Fwd ends s (ptrs cs) b
      → Elems s cs
      → contains_from comp x (length cs) s (head (ptrs cs)) ≡ first_match cs
  unfolding contains_from
  contains_from-first_match s [] b f h = refl
  contains_from-first_match s ((p, y) ∷ cs) b ((n, sp, pr, nx), f) (el, h) =
      let ih = contains_from-first_match s cs (some p) f h in
      let same : some n.elem ≡ some y = ap elem_of (sym sp) ∙ el in ground (arith, sp, nx, ih, same)

  -- In a list that holds the nodes, `contains` returns the first node whose data compares equal to
  -- the given one, null if there is none; it is undefined only where a comparison is.
  pub contains-first_match :
      (l : LinkList T) (cs : List (ℕ × T)) → Holds l cs → contains comp x l ≡ first_match cs
  unfolding contains
  contains-first_match l cs h =
      rw (h.size_ok, h.begin_ok) (contains_from-first_match l.nodes cs none (h.linked.1) h.elems)

  -- What stands in front of and behind the node that was found.
  pub record Found (p : ℕ) (cs : List (ℕ × T)) : Type 0 where
    pub before : List (ℕ × T)
    pub elem : T
    pub after : List (ℕ × T)
    pub order : ℤ
    pub splits : cs ≡ before ++ (p, elem) ∷ after
    pub compares : comp elem x ≡ some order
    pub equal : is_zero order ≡ true
    pub first : first_match before ≡ some none

  Found-is_zero :
      (p q : ℕ) (y : T) (cs : List (ℕ × T)) (r : ℤ) (b : Bool)
      → comp y x ≡ some r
      → is_zero r ≡ b
      → (first_match cs ≡ some (some p) → Found p cs)
      → first_match ((q, y) ∷ cs) ≡ some (some p)
      → Found p ((q, y) ∷ cs)
  Found-is_zero p q y cs r true e z rec h =
      let same : q ≡ p = ground (arith, e, z, h) in
      subst (λ k. Found k ((q, y) ∷ cs)) same
        (record {
          before = [];
          elem = y;
          after = cs;
          order = r;
          splits = refl;
          compares = e;
          equal = z;
          first = refl;
        })
  Found-is_zero p q y cs r false e z rec h =
      let f = rec (ground (arith, e, z, h)) in
      let none_before = f.first in
      record {
        before = (q, y) ∷ f.before;
        elem = f.elem;
        after = f.after;
        order = f.order;
        splits = ap (◌∷◌ (q, y)) f.splits;
        compares = f.compares;
        equal = f.equal;
        first = ground (arith, e, z, none_before);
      }

  Found-step :
      (p q : ℕ) (y : T) (cs : List (ℕ × T)) (o : Option ℤ)
      → comp y x ≡ o
      → (first_match cs ≡ some (some p) → Found p cs)
      → first_match ((q, y) ∷ cs) ≡ some (some p)
      → Found p ((q, y) ∷ cs)
  Found-step p q y cs none e rec h = absurd (ground (arith, e, h))
  Found-step p q y cs (some r) e rec h = Found-is_zero p q y cs r (is_zero r) e refl rec h

  pub Found-first_match : (p : ℕ) (cs : List (ℕ × T)) → first_match cs ≡ some (some p) → Found p cs
  Found-first_match p [] h = absurd (ground (arith, h))
  Found-first_match p ((q, y) ∷ cs) h =
      Found-step p q y cs (comp y x) refl (Found-first_match p cs) h
