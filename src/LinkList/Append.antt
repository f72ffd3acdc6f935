-- ===== src/LinkList/Append.antt =====
-- pingkv/src/tool/linklist.h: `append`.
use pingkv.Base.{
  ℕ, ◌+◌, ◌≤◌, ◌≡◌, refl, sym, ap, ◌∙◌, false, Option, none, some, List, [], ◌∷◌, ◌++◌, append-nil,
  length-append, arith, ◌==◌,
}
use mathlib.Core.Path.{subst}
use pingkv.Base.Links.{
  head, join, join-join, join-append, join_cons, count, count_one, count_nil, count_head,
  count_cons, modify_self, absent_head, count-append, count-join, modify, on_node, Fwd, Back,
  Linked, Linked-right, Linked-left, Fwd-Agree, Back-Agree, Agree-modify, Linked-insert,
  on_node-some, on_node-Back, on_node-Fwd,
}
use pingkv.LinkList.{Node, LinkList, set_prev, set_next, put_node, insert_after, append}
use pingkv.LinkList.Links.{
  ends, ptrs, elem_of, elem_of-modify, Elems-same, Elems-append, ptrs-append, Holds,
}

module _ {T : Type 0} where
  insert_after_runs :
      (s s₁ s₂ t : ℕ → Option (Node T)) (n p : ℕ) (m : Node T) (nxt : Option ℕ)
      → s n ≡ some m
      → m.next ≡ nxt
      → on_node (some p) (λ o. set_next nxt (set_prev (some n) o)) s ≡ some s₁
      → on_node (some n) (set_next (some p)) s₁ ≡ some s₂
      → on_node nxt (set_prev (some p)) s₂ ≡ some t
      → insert_after (some n) p s ≡ some t
  unfolding insert_after
  insert_after_runs s s₁ s₂ t n p m nxt sn nx e₁ e₂ e₃ = rw (sn, nx, e₁, e₂) e₃

  insert_after-Linked :
      (s : ℕ → Option (Node T)) (ls rs : List ℕ) (n p : ℕ) (k : Node T)
      → ((q : ℕ) → count q (n ∷ ls) + count q (p ∷ rs) ≤ 1)
      → s p ≡ some k
      → Linked ends s (n ∷ ls) rs
      → (t : ℕ → Option (Node T)) × (insert_after (some n) p s ≡ some t)
        × Linked ends t (n ∷ ls) (p ∷ rs)
        × ((q : ℕ) → elem_of (t q) ≡ elem_of (s q))
  unfolding insert_after
  insert_after-Linked s ls rs n p k d sp (((m, sn, pr, nx), back), fwd) =
      let g : Node T → Node T = λ o. set_next (head rs) (set_prev (some n) o) in
      let absent_ls : count p (n ∷ ls) ≡ 0 = omega (arith, d p, count_head p rs) in
      let absent_rs : count p rs ≡ 0 = absent_head p rs λ q. omega (arith, d q) in
      let absent_n : count n rs ≡ 0 = omega (arith, d n, count_head n ls, count_cons n p rs) in
      let s₁ = modify (some p) g s in
      let s₂ = modify (some n) (set_next (some p)) s₁ in
      let t = modify (head rs) (set_prev (some p)) s₂ in
      let back₁ : Back ends s₁ (n ∷ ls) (head rs) =
        Back-Agree ends s s₁ (n ∷ ls) (head rs) (Agree-modify ends s g (some p) (n ∷ ls) absent_ls)
          ((m, sn, pr, nx), back) in
      let fwd₁ : Fwd ends s₁ rs (some n) =
        Fwd-Agree ends s s₁ rs (some n) (Agree-modify ends s g (some p) rs absent_rs) fwd in
      let fwd₂ : Fwd ends s₂ rs (some n) =
        Fwd-Agree ends s₁ s₂ rs (some n)
          (Agree-modify ends s₁ (set_next (some p)) (some n) rs absent_n) fwd₁ in
      (
        t,
        insert_after_runs s s₁ s₂ t n p m (head rs) sn nx (on_node-some s g p k sp)
            (on_node-Back ends s₁ (set_next (some p)) (n ∷ ls) (head rs) back₁)
            (on_node-Fwd ends s₂ (set_prev (some p)) rs (some n) fwd₂),
        Linked-insert ends s₁ (n ∷ ls) rs p (g k) d refl refl (modify_self ends s g p k sp)
            (back₁, fwd₁),
        λ q.
            elem_of-modify (head rs) (set_prev (some p)) s₂ q (λ o. refl)
            ∙ elem_of-modify (some n) (set_next (some p)) s₁ q (λ o. refl)
            ∙ elem_of-modify (some p) g s q λ o. refl,
      )

  abbrev new_node : T → Node T
  new_node x = record { elem = x; prev = none; next = none }

  abbrev longer : LinkList T → (ℕ → Option (Node T)) → Option ℕ → LinkList T
  longer l t b = record {
    size = l.size + 1;
    begin = b;
    end = some l.allocated;
    nodes = t;
    allocated = l.allocated + 1;
  }

  append_runs :
      (l : LinkList T) (x : T) (t : ℕ → Option (Node T))
      → (l.size == 0) ≡ false
      → insert_after l.end l.allocated (put_node l.nodes l.allocated (some (new_node x))) ≡ some t
      → append x l ≡ some (longer l t l.begin)
  unfolding append
  append_runs l x t nz e = rw (nz, e) refl

  module _ (l : LinkList T) (cs : List (ℕ × T)) (x : T) (h : Holds l cs) where
    -- What the pointers lead to before the new node is linked.
    abbrev with_new : ℕ → Option (Node T)
    with_new = put_node l.nodes l.allocated (some (new_node x))

    new_self : with_new l.allocated ≡ some (new_node x)
    new_self = ground arith

    new_other : (q : ℕ) → 1 ≤ count q (ptrs cs) → with_new q ≡ l.nodes q
    new_other q c = ground (arith, h.below q)

    distinct_new : (q : ℕ) → count q (ptrs cs) + count q (l.allocated ∷ []) ≤ 1
    distinct_new q = let e = count_one l.allocated q in ground (arith, e, h.distinct q, h.below q)

    Holds-longer :
        (t : ℕ → Option (Node T)) (b : Option ℕ)
        → Linked ends t (join (ptrs cs) []) (l.allocated ∷ [])
        → ((q : ℕ) → elem_of (t q) ≡ elem_of (with_new q))
        → b ≡ head (ptrs cs ++ l.allocated ∷ [])
        → Holds (longer l t b) (cs ++ (l.allocated, x) ∷ [])
    Holds-longer t b k el bo =
        let e : ptrs (cs ++ (l.allocated, x) ∷ []) ≡ ptrs cs ++ l.allocated ∷ [] =
          ptrs-append cs ((l.allocated, x) ∷ []) in
        record {
          linked =
              rw (e, sym (join-join (ptrs cs) [] (l.allocated ∷ [])))
                (Linked-left ends t (join (ptrs cs) []) (l.allocated ∷ []) k);
          elems =
              Elems-append t cs ((l.allocated, x) ∷ [])
                (Elems-same l.nodes t cs (λ q c. el q ∙ ap elem_of (new_other q c)) h.elems)
                (el l.allocated ∙ ap elem_of new_self, tt);
          begin_ok = bo ∙ ap head (sym e);
          end_ok = rw (e, join-append (ptrs cs) (l.allocated ∷ []) []) refl;
          size_ok = omega (arith, h.size_ok, length-append cs ((l.allocated, x) ∷ []));
          distinct = λ q. rw (e, count-append q (ptrs cs) (l.allocated ∷ [])) (distinct_new q);
          below = λ q c.
              rw (e, count-append q (ptrs cs) (l.allocated ∷ []))
                (let f = count_one l.allocated q in ground (arith, f, h.below q, c));
        }

    linked_new : Linked ends with_new (join (ptrs cs) []) []
    linked_new =
        let k : Linked ends l.nodes [] (ptrs cs ++ []) = rw (append-nil (ptrs cs)) h.linked in
        let m = Linked-right ends l.nodes [] (ptrs cs) [] k in
        (
          Back-Agree ends l.nodes with_new (join (ptrs cs) []) none
              (λ q c. new_other q (omega (arith, c, count-join q (ptrs cs) [], count_nil q))) m.0,
          tt,
        )

    append_behind :
        (n : ℕ) (ls : List ℕ)
        → join (ptrs cs) [] ≡ n ∷ ls
        → (l.size == 0) ≡ false
        → l.begin ≡ head (ptrs cs ++ l.allocated ∷ [])
        → (l' : LinkList T) × (append x l ≡ some l')
          × Holds l' (cs ++ (l.allocated, x) ∷ [])
          × (l'.allocated ≡ l.allocated + 1)
    append_behind n ls e nz begin_same =
        let k : Linked ends with_new (n ∷ ls) [] =
          subst (λ z. Linked ends with_new z []) e linked_new in
        let d : (q : ℕ) → count q (n ∷ ls) + count q (l.allocated ∷ []) ≤ 1 = λ q.
          omega (arith, distinct_new q, count-join q (ptrs cs) [], count_nil q, ap (count q) e) in
        let (t, run, m, el) =
          insert_after-Linked with_new ls [] n l.allocated (new_node x) d new_self k in
        let end_n : l.end ≡ some n = h.end_ok ∙ ap head e in
        (
          longer l t l.begin,
          append_runs l x t nz (rw end_n run),
          Holds-longer t l.begin (subst (λ z. Linked ends t z (l.allocated ∷ [])) (sym e) m) el
              begin_same,
          refl,
        )

  -- `append` puts a node with the data behind the nodes that the list holds, and nothing else.
  pub append-Holds :
      (l : LinkList T) (cs : List (ℕ × T)) (x : T)
      → Holds l cs
      → (l' : LinkList T) × (append x l ≡ some l')
        × Holds l' (cs ++ (l.allocated, x) ∷ [])
        × (l'.allocated ≡ l.allocated + 1)
  unfolding append
  append-Holds l [] x h =
      let t = with_new l [] x h in
      (
        longer l t (some l.allocated),
        rw h.size_ok refl,
        Holds-longer l [] x h t (some l.allocated)
            (tt, ((new_node x, new_self l [] x h, refl, refl), tt)) (λ q. refl) refl,
        refl,
      )
  append-Holds l ((p, y) ∷ cs) x h =
      let (n, ls, e) = join_cons (ptrs cs) p [] in
      let nz : (l.size == 0) ≡ false = ground (arith, h.size_ok) in
      append_behind l ((p, y) ∷ cs) x h n ls e nz h.begin_ok
