-- ===== src/LinkList/Del.antt =====
-- pingkv/src/tool/linklist.h: `del` and `destroy_nodes`.
use mathlib.Core.Path.{subst}
use pingkv.Base.{
  ℕ, ◌+◌, ◌-◌, ◌≤◌, ◌≡◌, refl, sym, ap, ◌∙◌, Option, none, some, List, [], ◌∷◌, ◌++◌, length,
  length-append, arith, if◌then◌else◌,
}
use pingkv.Base.Links.{
  is_ptr, begin_after, end_after, head, join, join-join, join-append, count, count_step, count_nil,
  count_head, count_cons, absent_head, Absent-head, count-append, count-join, Distinct, Absent,
  modify, on_node, Fwd, Linked, Linked-right, Linked-left, Fwd-Agree, Back-Agree, Agree-modify,
  Linked-unlink, on_node-Back, on_node-Fwd,
}
use pingkv.LinkList.{
  Node, LinkList, set_prev, set_next, put_node, unlink, del_node, destroy_from, destroy_nodes,
}
use pingkv.LinkList.Links.{
  ends, ptrs, Elems, elem_of, put_node_other, elem_of-modify, Elems-same, Elems-append, Elems-left,
  Elems-right, ptrs-append, length-ptrs, Holds,
}

module _ {T : Type 0} where
  unlink_runs :
      (s t u : ℕ → Option (Node T)) (p : ℕ) (n : Node T) (before after : Option ℕ)
      → s p ≡ some n
      → n.prev ≡ before
      → n.next ≡ after
      → on_node before (set_next after) s ≡ some t
      → on_node after (set_prev before) t ≡ some u
      → unlink p s ≡ some u
  unfolding unlink
  unlink_runs s t u p n before after sp pr nx e₁ e₂ = rw (sp, pr, nx, e₁) e₂

  -- `_del_node` takes the node out from between its neighbours.
  unlink-Linked :
      (s : ℕ → Option (Node T)) (ls rs : List ℕ) (p : ℕ)
      → ((q : ℕ) → count q ls + count q rs ≤ 1)
      → Linked ends s ls (p ∷ rs)
      → (t : ℕ → Option (Node T)) × (unlink p s ≡ some t)
        × Linked ends t ls rs
        × ((q : ℕ) → elem_of (t q) ≡ elem_of (s q))
  unlink-Linked s ls rs p d (back, ((n, sp, pr, nx), fwd)) =
      let s₁ = modify (head ls) (set_next (head rs)) s in
      let t = modify (head rs) (set_prev (head ls)) s₁ in
      let a : Absent (head ls) rs = Absent-head ls rs d in
      let fwd₁ : Fwd ends s₁ rs (some p) =
        Fwd-Agree ends s s₁ rs (some p) (Agree-modify ends s (set_next (head rs)) (head ls) rs a)
          fwd in
      (
        t,
        unlink_runs s s₁ t p n (head ls) (head rs) sp pr nx
            (on_node-Back ends s (set_next (head rs)) ls (some p) back)
            (on_node-Fwd ends s₁ (set_prev (head ls)) rs (some p) fwd₁),
        Linked-unlink ends s ls rs p d (back, ((n, sp, pr, nx), fwd)),
        λ q.
            elem_of-modify (head rs) (set_prev (head ls)) s₁ q (λ o. refl)
            ∙ elem_of-modify (head ls) (set_next (head rs)) s q (λ o. refl),
      )

  abbrev shorter : LinkList T → (ℕ → Option (Node T)) → Node T → ℕ → LinkList T
  shorter l s n p = record l {
    begin = if is_ptr l.begin p then n.next else l.begin;
    end = if is_ptr l.end p then n.prev else l.end;
    nodes = put_node s p none;
    size = l.size - 1;
  }

  del_node_runs :
      (l : LinkList T) (s : ℕ → Option (Node T)) (n : Node T) (p : ℕ)
      → l.nodes p ≡ some n
      → unlink p l.nodes ≡ some s
      → del_node p l ≡ some (shorter l s n p)
  unfolding del_node
  del_node_runs l s n p e₁ e₂ = rw (e₂, e₁) refl

  module _ (l : LinkList T) (cs ds : List (ℕ × T)) (p : ℕ) (x : T)
      (h : Holds l (cs ++ (p, x) ∷ ds)) where
    ptrs_all : ptrs (cs ++ (p, x) ∷ ds) ≡ ptrs cs ++ p ∷ ptrs ds
    ptrs_all = ptrs-append cs ((p, x) ∷ ds)

    abbrev left : List ℕ
    left = join (ptrs cs) []

    counts : (q : ℕ) → count q (ptrs cs) + count q (p ∷ ptrs ds) ≤ 1
    counts q = rw (sym (count-append q (ptrs cs) (p ∷ ptrs ds)), sym ptrs_all) (h.distinct q)

    counts_left : (q : ℕ) → count q left ≡ count q (ptrs cs)
    counts_left q = omega (arith, count-join q (ptrs cs) [], count_nil q)

    counts_both : (q : ℕ) → count q left + count q (ptrs ds) ≤ 1
    counts_both q = omega (arith, counts q, counts_left q, count_cons q p (ptrs ds))

    linked_there : Linked ends l.nodes left (p ∷ ptrs ds)
    linked_there = Linked-right ends l.nodes [] (ptrs cs) (p ∷ ptrs ds) (rw (sym ptrs_all) h.linked)

    absent_left : count p left ≡ 0
    absent_left = omega (arith, counts p, counts_left p, count_head p (ptrs ds))

    absent_right : count p (ptrs ds) ≡ 0
    absent_right = absent_head p (ptrs ds) λ q. omega (arith, counts q)

    Holds-shorter :
        (s : ℕ → Option (Node T)) (n : Node T)
        → Linked ends s left (ptrs ds)
        → ((q : ℕ) → elem_of (s q) ≡ elem_of (l.nodes q))
        → n.prev ≡ head left
        → n.next ≡ head (ptrs ds)
        → Holds (shorter l s n p) (cs ++ ds)
    Holds-shorter s n (back, fwd) el pr nx =
        let t = put_node s p none in
        let e : ptrs (cs ++ ds) ≡ join left (ptrs ds) =
          ptrs-append cs ds ∙ sym (join-join (ptrs cs) [] (ptrs ds)) in
        let both : (q : ℕ) → count q (ptrs (cs ++ ds)) ≡ count q left + count q (ptrs ds) = λ q.
          ap (count q) (ptrs-append cs ds)
          ∙ omega (arith, count-append q (ptrs cs) (ptrs ds), counts_left q) in
        let gone : count p (ptrs (cs ++ ds)) ≡ 0 =
          omega (arith, both p, absent_left, absent_right) in
        let all : (q : ℕ)
            → count q (ptrs (cs ++ (p, x) ∷ ds)) ≡ count q (ptrs cs) + count q (p ∷ ptrs ds) =
          λ q. ap (count q) ptrs_all ∙ count-append q (ptrs cs) (p ∷ ptrs ds) in
        let begin_gone : (if is_ptr l.begin p then n.next else l.begin)
            ≡ head (ptrs cs ++ ptrs ds) =
          rw (h.begin_ok, ptrs_all, nx)
            (begin_after (ptrs cs) (ptrs ds) p (sym (counts_left p) ∙ absent_left)) in
        let end_gone : (if is_ptr l.end p then n.prev else l.end)
            ≡ head (join (ptrs cs ++ ptrs ds) []) =
          rw
            (
              h.end_ok,
              ptrs_all,
              pr,
              join-append (ptrs cs) (p ∷ ptrs ds) [],
              join-append (ptrs cs) (ptrs ds) [],
            )
            (end_after (ptrs ds) left p absent_right) in
        let kept : Elems l.nodes (cs ++ ds) =
          Elems-append l.nodes cs ds (Elems-left l.nodes cs ((p, x) ∷ ds) h.elems)
            ((Elems-right l.nodes cs ((p, x) ∷ ds) h.elems).1) in
        record {
          linked = subst (Linked ends t []) (sym e) (
              Linked-left ends t left (ptrs ds) (
                Back-Agree ends s t left (head (ptrs ds)) (put_node_other s p none left absent_left)
                    back,
                Fwd-Agree ends s t (ptrs ds) (head left)
                    (put_node_other s p none (ptrs ds) absent_right) fwd,
              ));
          elems =
              Elems-same l.nodes t (cs ++ ds)
                (λ q c. ap elem_of (put_node_other s p none (ptrs (cs ++ ds)) gone q c) ∙ el q)
                kept;
          begin_ok = begin_gone ∙ ap head (sym (ptrs-append cs ds));
          end_ok = end_gone ∙ ap (λ z. head (join z [])) (sym (ptrs-append cs ds));
          size_ok = omega (arith, h.size_ok, length-append cs ds, length-append cs ((p, x) ∷ ds));
          distinct = λ q. omega (arith, both q, counts_both q);
          below = λ q c.
              omega (arith, both q, counts_left q, h.below q c, all q, count_cons q p (ptrs ds));
        }

  -- `del` takes out the node that it is given, frees it, and keeps the others in their order.
  pub del_node-Holds :
      (l : LinkList T) (cs ds : List (ℕ × T)) (p : ℕ) (x : T)
      → Holds l (cs ++ (p, x) ∷ ds)
      → (l' : LinkList T) × (del_node p l ≡ some l')
        × Holds l' (cs ++ ds)
        × (l'.nodes p ≡ none)
        × (l'.allocated ≡ l.allocated)
  del_node-Holds l cs ds p x h =
      let k = linked_there l cs ds p x h in
      let (n, sp, pr, nx) = k.1.0 in
      let (s, run, m, el) =
        unlink-Linked l.nodes (left l cs ds p x h) (ptrs ds) p (counts_both l cs ds p x h) k in
      (
        shorter l s n p,
        del_node_runs l s n p sp run,
        Holds-shorter l cs ds p x h s n m el pr nx,
        ground arith,
        refl,
      )

  module _ (s t : ℕ → Option (Node T)) (p : ℕ) (ps : List ℕ) (a : count p ps ≡ 0)
      (freed : (q : ℕ) → 1 ≤ count q ps → t q ≡ none)
      (kept : (q : ℕ) → count q ps ≡ 0 → t q ≡ put_node s p none q) where
    destroyed : (q : ℕ) → 1 ≤ count q (p ∷ ps) → t q ≡ none
    destroyed q c =
        let f : q ≡ p → count q ps ≡ count p ps = ap (λ r. count r ps) in
        ground (arith, a, c, f, freed q, kept q, count_step p q ps)

  untouched :
      (s t : ℕ → Option (Node T)) (p : ℕ) (ps : List ℕ)
      → ((q : ℕ) → count q ps ≡ 0 → t q ≡ put_node s p none q)
      → (q : ℕ) → count q (p ∷ ps) ≡ 0
      → t q ≡ s q
  untouched s t p ps kept q c = ground (arith, c, kept q, count_step p q ps)

  destroy_from-Fwd :
      (s : ℕ → Option (Node T)) (ps : List ℕ) (b : Option ℕ)
      → Distinct ps
      → Fwd ends s ps b
      → (t : ℕ → Option (Node T)) × (destroy_from (length ps) (head ps) s ≡ some t)
        × ((q : ℕ) → 1 ≤ count q ps → t q ≡ none)
        × ((q : ℕ) → count q ps ≡ 0 → t q ≡ s q)
  unfolding destroy_from
  destroy_from-Fwd s [] b d f =
      (s, refl, (λ q c. absurd (omega (arith, c, count_nil q))), λ q c. refl)
  destroy_from-Fwd s (p ∷ ps) b d ((n, sp, pr, nx), f) =
      let s₁ = put_node s p none in
      let a = absent_head p ps d in
      let f₁ = Fwd-Agree ends s s₁ ps (some p) (put_node_other s p none ps a) f in
      let (t, run, freed, kept) =
        destroy_from-Fwd s₁ ps (some p) (λ q. omega (arith, d q, count_cons q p ps)) f₁ in
      (t, rw (sp, nx) run, destroyed s t p ps a freed kept, untouched s t p ps kept)

  -- `destroy_nodes` frees every node that the list holds and leaves it empty.
  pub destroy_nodes-Holds :
      (l : LinkList T) (cs : List (ℕ × T))
      → Holds l cs
      → (l' : LinkList T) × (destroy_nodes l ≡ some l')
        × Holds l' []
        × ((q : ℕ) → 1 ≤ count q (ptrs cs) → l'.nodes q ≡ none)
  unfolding destroy_nodes
  destroy_nodes-Holds l cs h =
      let (t, run, freed, kept) = destroy_from-Fwd l.nodes (ptrs cs) none h.distinct (h.linked.1) in
      (
        record l { size = 0; begin = none; end = none; nodes = t },
        rw (h.begin_ok, h.size_ok, sym (length-ptrs cs), run) refl,
        record {
          linked = (tt, tt);
          elems = tt;
          begin_ok = refl;
          end_ok = refl;
          size_ok = refl;
          distinct = λ q. omega (arith, count_nil q);
          below = λ q c. count_nil q;
        },
        freed,
      )
