-- ===== src/LinkList/Tests.antt =====
-- pingkv/src/tool/linklist.h: a list of two nodes.
use pingkv.Base.{ℕ, ◌≤◌, ◌≡◌, refl, Option, none, some, [], ◌∷◌, arith, ◌==◌, if◌then◌else◌}
use pingkv.Base.Int.{ℤ, pos}
use pingkv.Base.Maybe.{◌>>=◌}
use pingkv.Base.Links.{count, count_step, count_nil}
use pingkv.LinkList.{Node, LinkList, init, append, contains, del_node, destroy_nodes}
use pingkv.LinkList.Links.{Holds}
use pingkv.LinkList.Search.{contains-first_match}
use pingkv.LinkList.Append.{append-Holds}
use pingkv.LinkList.Del.{del_node-Holds, destroy_nodes-Holds}

abbrev two_nodes : ℕ → Option (Node ℕ)
two_nodes p =
    if p == 0
    then some (record { elem = 5; prev = none; next = some 1 })
    else if p == 1
    then some (record { elem = 7; prev = some 0; next = none })
    else none

abbrev two : LinkList ℕ
two = record { size = 2; begin = some 0; end = some 1; nodes = two_nodes; allocated = 2 }

two-Holds : Holds two ((0, 5) ∷ (1, 7) ∷ [])
two-Holds = record {
  linked = (
    tt,
    (
      (record { elem = 5; prev = none; next = some 1 }, refl, refl, refl),
      ((record { elem = 7; prev = some 0; next = none }, refl, refl, refl), tt),
    ),
  );
  elems = (refl, (refl, tt));
  begin_ok = refl;
  end_ok = refl;
  size_ok = refl;
  distinct = λ q.
      let a = count_step 0 q (1 ∷ []) in
      let b = count_step 1 q [] in let c = count_nil q in ground (arith, a, b, c);
  below = λ q le.
      let a = count_step 0 q (1 ∷ []) in
      let b = count_step 1 q [] in let c = count_nil q in ground (arith, a, b, c, le);
}

abbrev same : ℕ → ℕ → Option ℤ
same a b = if a == b then some (pos 0) else some (pos 1)

-- The operations of the code on an empty list, by running them.
abbrev appended : Option (LinkList ℕ)
appended = do a ← append 5 init; append 7 a

contains-first_match_example : contains same 7 two ≡ some (some 1)
contains-first_match_example = contains-first_match same 7 two ((0, 5) ∷ (1, 7) ∷ []) two-Holds

append-Holds_example :
    (l' : LinkList ℕ) × (append 9 two ≡ some l')
    × Holds l' ((0, 5) ∷ (1, 7) ∷ (2, 9) ∷ [])
    × (l'.allocated ≡ 3)
append-Holds_example = append-Holds two ((0, 5) ∷ (1, 7) ∷ []) 9 two-Holds

del_node-Holds_example :
    (l' : LinkList ℕ) × (del_node 0 two ≡ some l')
    × Holds l' ((1, 7) ∷ [])
    × (l'.nodes 0 ≡ none)
    × (l'.allocated ≡ 2)
del_node-Holds_example = del_node-Holds two [] ((1, 7) ∷ []) 0 5 two-Holds

destroy_nodes-Holds_example :
    (l' : LinkList ℕ) × (destroy_nodes two ≡ some l')
    × Holds l' []
    × ((q : ℕ) → 1 ≤ count q (0 ∷ 1 ∷ []) → l'.nodes q ≡ none)
destroy_nodes-Holds_example = destroy_nodes-Holds two ((0, 5) ∷ (1, 7) ∷ []) two-Holds
