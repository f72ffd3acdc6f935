-- ===== src/Lru/Recency.antt =====
-- pingkv/src/cache/kv_lru.cc: the list from the node used last to the one used longest ago.
use mathlib.Core.Path.{subst}
use pingkv.Base.{
  ℕ, ◌+◌, ◌-◌, ◌≤◌, ◌≡◌, refl, ap, ◌∙◌, true, false, Option, none, some, List, [], ◌∷◌, ◌++◌, Bytes,
  length, ◌==◌, if◌then◌else◌, arith,
}
use pingkv.Base.Int.{add_to, take_from}
use pingkv.Base.Links.{
  is_ptr, head, join, join-join, join-append, last_of, begin_after, end_after, count, count_nil,
  count_one, count_step, count_head, count_cons, count-append, count-join, absent_head, Absent-head,
  Distinct, Distinct-count, Absent, modify, modify_self, on_node-some, on_node-Back, on_node-Fwd,
  Ends, At, Fwd, Back, Linked, Linked-left, Linked-right, Linked-unlink, Agree, Agree-modify,
  Fwd-Agree, Back-Agree, Fwd-relink,
}
use pingkv.Base.Links as Links
use pingkv.Lru.{LruNode, Lru, first_of, lru_insert, lru_del, mem_equal, get_loop}

abbrev set_prev : Option ℕ → LruNode → LruNode
set_prev p n = record n { prev = p }

abbrev set_next : Option ℕ → LruNode → LruNode
set_next p n = record n { next = p }

abbrev clear : LruNode → LruNode
clear n = record n { prev = none; next = none }

abbrev ends : Ends LruNode
ends = record {
  prev = λ n. n.prev;
  next = λ n. n.next;
  set_prev = set_prev;
  set_next = set_next;
  prev-set_prev = λ p n. refl;
  next-set_prev = λ p n. refl;
  prev-set_next = λ p n. refl;
  next-set_next = λ p n. refl;
}

-- The list of the cache holds the nodes at the pointers, from hot to cold.
pub record Keeps (c : Lru) (ps : List ℕ) : Type 0 where
  pub linked : Linked ends c.nodes [] ps
  pub hot_ok : c.hot ≡ head ps
  pub cold_ok : c.cold ≡ head (join ps [])
  pub distinct : Distinct ps

cold_front : (ps : List ℕ) (p : ℕ) → first_of (head (join ps [])) (some p) ≡ head (join ps (p ∷ []))
cold_front [] p = refl
cold_front (q ∷ qs) p = let (r, _, e) = last_of qs q in rw (e [], e (p ∷ [])) refl

abbrev inserted : Lru → ℕ → LruNode → (ℕ → Option LruNode) → Lru
inserted c p n s = record c {
  hot = some p;
  cold = first_of c.cold (some p);
  node_count = c.node_count + 1;
  size = add_to (add_to c.size (length n.k)) (length n.v);
  nodes = s;
}

lru_insert_runs :
    (c : Lru) (p : ℕ) (n : LruNode) (hot : Option ℕ) (s₁ s₂ : ℕ → Option LruNode)
    → c.hot ≡ hot
    → Links.on_node hot (set_prev (some p)) c.nodes ≡ some s₁
    → Links.on_node (some p) (set_next hot) s₁ ≡ some s₂
    → s₂ p ≡ some n
    → lru_insert p c ≡ some (inserted c p n s₂)
unfolding lru_insert
lru_insert_runs c p n hot s₁ s₂ h e₁ e₂ e₃ = rw (h, e₁, e₂, e₃) refl

-- A node that the list does not hold becomes the hot one.
lru_insert-Keeps :
    (c : Lru) (ps : List ℕ) (p : ℕ) (n : LruNode)
    → Keeps c ps
    → count p ps ≡ 0
    → c.nodes p ≡ some n
    → n.prev ≡ none
    → (c' : Lru) × (lru_insert p c ≡ some c') × Keeps c' (p ∷ ps)
lru_insert-Keeps c ps p n k absent there pr =
    let s₁ = modify (head ps) (set_prev (some p)) c.nodes in
    let s₂ = modify (some p) (set_next (head ps)) s₁ in
    let n' = set_next (head ps) n in
    let distinct : Distinct (p ∷ ps) = Distinct-count p ps absent k.distinct in
    let apart : (q : ℕ) → count q ps + count q (p ∷ []) ≤ 1 =
      λ q. omega (arith, distinct q, count_step p q ps, count_step p q [], count_nil q) in
    let same : s₁ p ≡ some n =
      Agree-modify ends c.nodes (set_prev (some p)) (head ps) (p ∷ [])
        (Absent-head ps (p ∷ []) apart) p (count_head p [])
      ∙ there in
    let new : s₂ p ≡ some n' = modify_self ends s₁ (set_next (head ps)) p n same in
    let fwd : Fwd ends s₁ ps (some p) =
      Fwd-relink ends c.nodes ps none (some p) k.distinct (k.linked.1) in
    (
      inserted c p n' s₂,
      lru_insert_runs c p n' (head ps) s₁ s₂ k.hot_ok
          (on_node-Fwd ends c.nodes (set_prev (some p)) ps none (k.linked.1))
          (on_node-some s₁ (set_next (head ps)) p n same) new,
      record {
        linked = (
          tt,
          (
            (n', new, pr, refl),
            Fwd-Agree ends s₁ s₂ ps (some p)
                (Agree-modify ends s₁ (set_next (head ps)) (some p) ps absent) fwd,
          ),
        );
        hot_ok = refl;
        cold_ok = ap (λ o. first_of o (some p)) k.cold_ok ∙ cold_front ps p;
        distinct = distinct;
      },
    )

-- The parts of a list around a pointer.
apart_of :
    (ls rs : List ℕ) (p : ℕ)
    → Distinct (ls ++ p ∷ rs)
    → (q : ℕ) → count q (join ls []) + count q (p ∷ rs) ≤ 1
apart_of ls rs p d q =
    omega (arith, d q, count-append q ls (p ∷ rs), count-join q ls [], count_nil q)

abbrev unlinked : Lru → ℕ → LruNode → (ℕ → Option LruNode) → Lru
unlinked c p n s = record c {
  hot = if is_ptr c.hot p then n.next else c.hot;
  cold = if is_ptr c.cold p then n.prev else c.cold;
  node_count = c.node_count - 1;
  size = take_from (take_from c.size (length n.k)) (length n.v);
  nodes = s;
}

lru_del_runs :
    (c : Lru) (p : ℕ) (n : LruNode) (before after : Option ℕ) (s₁ s₂ s₃ : ℕ → Option LruNode)
    → c.nodes p ≡ some n
    → n.prev ≡ before
    → n.next ≡ after
    → Links.on_node before (set_next after) c.nodes ≡ some s₁
    → Links.on_node after (set_prev before) s₁ ≡ some s₂
    → Links.on_node (some p) clear s₂ ≡ some s₃
    → lru_del p c ≡ some (unlinked c p n s₃)
unfolding lru_del
lru_del_runs c p n before after s₁ s₂ s₃ e₀ pr nx e₁ e₂ e₃ = rw (e₀, pr, nx, e₁, e₂, e₃) refl

module _ (c : Lru) (ps qs : List ℕ) (p : ℕ) (k : Keeps c (ps ++ p ∷ qs)) where
  abbrev left : List ℕ
  left = join ps []

  apart : (q : ℕ) → count q left + count q (p ∷ qs) ≤ 1
  apart = apart_of ps qs p k.distinct

  both : (q : ℕ) → count q left + count q qs ≤ 1
  both q = omega (arith, apart q, count_cons q p qs)

  absent_left : count p left ≡ 0
  absent_left = omega (arith, apart p, count_head p qs)

  absent_right : count p qs ≡ 0
  absent_right = absent_head p qs λ q. omega (arith, apart q)

  linked_there : Linked ends c.nodes left (p ∷ qs)
  linked_there = Linked-right ends c.nodes [] ps (p ∷ qs) k.linked

  Keeps-unlinked :
      (n : LruNode) (s s' : ℕ → Option LruNode)
      → n.prev ≡ head left
      → n.next ≡ head qs
      → Linked ends s left qs
      → Agree ends s s' left
      → Agree ends s s' qs
      → Keeps (unlinked c p n s') (ps ++ qs)
  Keeps-unlinked n s s' pr nx (back, fwd) a b =
      let linked =
        Linked-left ends s' left qs
          (Back-Agree ends s s' left (head qs) a back, Fwd-Agree ends s s' qs (head left) b fwd) in
      let hot_gone : (if is_ptr c.hot p then n.next else c.hot) ≡ head (ps ++ qs) =
        rw (k.hot_ok, nx)
          (begin_after ps qs p (omega (arith, absent_left, count-join p ps [], count_nil p))) in
      let cold_gone : (if is_ptr c.cold p then n.prev else c.cold) ≡ head (join (ps ++ qs) []) =
        rw (k.cold_ok, pr, join-append ps (p ∷ qs) [], join-append ps qs [])
          (end_after qs left p absent_right) in
      record {
        linked = subst (Linked ends s' []) (join-join ps [] qs) linked;
        hot_ok = hot_gone;
        cold_ok = cold_gone;
        distinct =
            λ q. omega (arith, both q, count-append q ps qs, count-join q ps [], count_nil q);
      }

  -- A node that the list holds is taken out of it, and its pointers are cleared.
  lru_del-Keeps :
      (c' : Lru) × (n : LruNode) × (lru_del p c ≡ some c')
      × Keeps c' (ps ++ qs)
      × (c'.nodes p ≡ some n)
      × (n.prev ≡ none)
  lru_del-Keeps =
      let (n, there, pr, nx) = linked_there.1.0 in
      let back = linked_there.0 in
      let s₁ = modify (head left) (set_next (head qs)) c.nodes in
      let s₂ = modify (head qs) (set_prev (head left)) s₁ in
      let s₃ = modify (some p) clear s₂ in
      let fwd₁ : Fwd ends s₁ qs (some p) =
        Fwd-Agree ends c.nodes s₁ qs (some p)
          (Agree-modify ends c.nodes (set_next (head qs)) (head left) qs (Absent-head left qs both))
          (linked_there.1.1) in
      let alone : (q : ℕ) → count q left + count q (p ∷ []) ≤ 1 =
        λ q. omega (arith, apart q, count_step p q qs, count_step p q [], count_nil q) in
      let alone' : (q : ℕ) → count q qs + count q (p ∷ []) ≤ 1 =
        λ q. omega (arith, apart q, count_step p q qs, count_step p q [], count_nil q) in
      let same : s₂ p ≡ some n =
        Agree-modify ends s₁ (set_prev (head left)) (head qs) (p ∷ [])
          (Absent-head qs (p ∷ []) alone') p (count_head p [])
        ∙ Agree-modify ends c.nodes (set_next (head qs)) (head left) (p ∷ [])
            (Absent-head left (p ∷ []) alone) p (count_head p [])
        ∙ there in
      (
        unlinked c p n s₃,
        clear n,
        lru_del_runs c p n (head left) (head qs) s₁ s₂ s₃ there pr nx
            (on_node-Back ends c.nodes (set_next (head qs)) left (some p) back)
            (on_node-Fwd ends s₁ (set_prev (head left)) qs (some p) fwd₁)
            (on_node-some s₂ clear p n same),
        Keeps-unlinked n s₂ s₃ pr nx (Linked-unlink ends c.nodes left qs p both linked_there)
            (Agree-modify ends s₂ clear (some p) left absent_left)
            (Agree-modify ends s₂ clear (some p) qs absent_right),
        modify_self ends s₂ clear p n same,
        refl,
      )

get_loop_runs :
    (c c₁ c₂ : Lru) (p k_len : ℕ) (k : Bytes) (n : LruNode) (ns : List ℕ)
    → c.nodes p ≡ some n
    → (length n.k == 0) ≡ false
    → mem_equal k_len k n.k ≡ some true
    → lru_del p c ≡ some c₁
    → lru_insert p c₁ ≡ some c₂
    → get_loop k k_len (p ∷ ns) c ≡ some (some p, c₂)
unfolding get_loop
get_loop_runs c c₁ c₂ p k_len k n ns e z m d i = rw (e, z, m, d, i) refl

-- On a list that is linked both ways: when the key matches the node of a bucket that `_get` looks at,
-- the loop returns it, moves it to the hot end and keeps the order of the other nodes.
pub get_loop-Keeps :
    (c : Lru) (ps qs ns : List ℕ) (p k_len : ℕ) (k : Bytes) (n : LruNode)
    → Keeps c (ps ++ p ∷ qs)
    → c.nodes p ≡ some n
    → (length n.k == 0) ≡ false
    → mem_equal k_len k n.k ≡ some true
    → (c' : Lru) × (get_loop k k_len (p ∷ ns) c ≡ some (some p, c')) × Keeps c' (p ∷ ps ++ qs)
get_loop-Keeps c ps qs ns p k_len k n keeps there z m =
    let (c₁, n₁, del, keeps₁, there₁, pr) = lru_del-Keeps c ps qs p keeps in
    let gone : count p (ps ++ qs) ≡ 0 = omega (
      arith,
      count-append p ps qs,
      absent_left c ps qs p keeps,
      absent_right c ps qs p keeps,
      count-join p ps [],
      count_nil p,
    ) in
    let (c₂, insert, keeps₂) = lru_insert-Keeps c₁ (ps ++ qs) p n₁ keeps₁ gone there₁ pr in
    (c₂, get_loop_runs c c₁ c₂ p k_len k n ns there z m del insert, keeps₂)
