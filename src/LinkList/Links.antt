-- ===== src/LinkList/Links.antt =====
-- pingkv/src/tool/linklist.h: what a list holds, as a list of its nodes.
use pingkv.Base.{
  ℕ, suc, ◌≤◌, ◌≡◌, refl, ap, ◌∙◌, Option, none, some, List, [], ◌∷◌, ◌++◌, length, arith,
}
use pingkv.Base.Links.{
  head, join, count, count_head, count_tail, Distinct, modify, map_node, Ends, Linked,
}
use pingkv.LinkList.{Node, LinkList, set_prev, set_next, put_node}

module _ {T : Type 0} where
  abbrev pub ends : Ends (Node T)
  ends = record {
    prev = λ n. n.prev;
    next = λ n. n.next;
    set_prev = set_prev;
    set_next = set_next;
    prev-set_prev = λ p n. refl;
    next-set_prev = λ p n. refl;
    prev-set_next = λ p n. refl;
    next-set_next = λ p n. refl;
  }

  -- The data of the node at a pointer.
  abbrev pub elem_of : Option (Node T) → Option T
  elem_of none = none
  elem_of (some n) = some n.elem

  abbrev pub ptrs : List (ℕ × T) → List ℕ
  ptrs [] = []
  ptrs ((p, x) ∷ cs) = p ∷ ptrs cs

  abbrev pub Elems : (ℕ → Option (Node T)) → List (ℕ × T) → Type 0
  Elems s [] = Unit {0}
  Elems s ((p, x) ∷ cs) = (elem_of (s p) ≡ some x) × Elems s cs

  -- The list holds the nodes, each with its pointer and its data.
  pub record Holds (l : LinkList T) (cs : List (ℕ × T)) : Type 0 where
    pub linked : Linked ends l.nodes [] (ptrs cs)
    pub elems : Elems l.nodes cs
    pub begin_ok : l.begin ≡ head (ptrs cs)
    pub end_ok : l.end ≡ head (join (ptrs cs) [])
    pub size_ok : l.size ≡ length cs
    pub distinct : Distinct (ptrs cs)
    pub below : (q : ℕ) → l.allocated ≤ q → count q (ptrs cs) ≡ 0

  pub ptrs-append : (cs ds : List (ℕ × T)) → ptrs (cs ++ ds) ≡ ptrs cs ++ ptrs ds
  ptrs-append [] ds = refl
  ptrs-append ((p, x) ∷ cs) ds = ap (◌∷◌ p) (ptrs-append cs ds)

  pub length-ptrs : (cs : List (ℕ × T)) → length (ptrs cs) ≡ length cs
  length-ptrs [] = refl
  length-ptrs ((p, x) ∷ cs) = ap suc (length-ptrs cs)

  elem_of-map_node :
      (f : Node T → Node T)
      → ((n : Node T) → (f n).elem ≡ n.elem)
      → (o : Option (Node T)) → elem_of (map_node f o) ≡ elem_of o
  elem_of-map_node f h none = refl
  elem_of-map_node f h (some n) = ap some (h n)

  -- Writes to the pointers of nodes keep their data.
  pub elem_of-modify :
      (o : Option ℕ) (f : Node T → Node T) (s : ℕ → Option (Node T)) (q : ℕ)
      → ((n : Node T) → (f n).elem ≡ n.elem)
      → elem_of (modify o f s q) ≡ elem_of (s q)
  elem_of-modify none f s q h = refl
  elem_of-modify (some p) f s q h = ground (arith, elem_of-map_node f h (s p))

  pub Elems-same :
      (s t : ℕ → Option (Node T)) (cs : List (ℕ × T))
      → ((q : ℕ) → 1 ≤ count q (ptrs cs) → elem_of (t q) ≡ elem_of (s q))
      → Elems s cs
      → Elems t cs
  Elems-same s t [] a h = h
  Elems-same s t ((p, x) ∷ cs) a (sp, h) = (
    a p (count_head p (ptrs cs)) ∙ sp,
    Elems-same s t cs (λ q c. a q (count_tail p q (ptrs cs) c)) h,
  )

  pub Elems-append :
      (s : ℕ → Option (Node T)) (cs ds : List (ℕ × T))
      → Elems s cs
      → Elems s ds
      → Elems s (cs ++ ds)
  Elems-append s [] ds h k = k
  Elems-append s ((p, x) ∷ cs) ds (sp, h) k = (sp, Elems-append s cs ds h k)

  pub Elems-left :
      (s : ℕ → Option (Node T)) (cs ds : List (ℕ × T)) → Elems s (cs ++ ds) → Elems s cs
  Elems-left s [] ds h = tt
  Elems-left s ((p, x) ∷ cs) ds (sp, h) = (sp, Elems-left s cs ds h)

  pub Elems-right :
      (s : ℕ → Option (Node T)) (cs ds : List (ℕ × T)) → Elems s (cs ++ ds) → Elems s ds
  Elems-right s [] ds h = h
  Elems-right s ((p, x) ∷ cs) ds (sp, h) = Elems-right s cs ds h

  pub put_node_other :
      (s : ℕ → Option (Node T)) (p : ℕ) (n : Option (Node T)) (ps : List ℕ)
      → count p ps ≡ 0
      → (q : ℕ) → 1 ≤ count q ps
      → put_node s p n q ≡ s q
  put_node_other s p n ps a q c =
      let f : q ≡ p → count q ps ≡ count p ps = ap (λ r. count r ps) in ground (arith, f, a, c)
