-- ===== src/Base/Links.antt =====
-- Doubly linked lists in a store. A pointer is a number; a list is given by the pointers to the left
-- of a place, nearest first, and those to the right of it.
mod Pointers
use Prim.Native.Nat.{ℕ, ◌+◌, ◌≤◌}
use mathlib.Core.Path.{◌≡◌, refl, ap, ◌∙◌}
use mathlib.Core.Logic.{◌≢◌}
use mathlib.Core.Option.{Option, none, some}
use mathlib.Core.List.{List, [], ◌∷◌, ◌++◌}
use native.Mathlib.Omega.{arith}
pub use Pointers.*
use pingkv.Base.Tests.{◌==◌, if◌then◌else◌}

module _ {N : Type 0} where
  abbrev pub map_node : (N → N) → Option N → Option N
  map_node f none = none
  map_node f (some n) = some (f n)

  -- The store after a write to the node that a pointer leads to, if it is not null.
  abbrev pub modify : Option ℕ → (N → N) → (ℕ → Option N) → ℕ → Option N
  modify none f s = s
  modify (some p) f s = λ q. if q == p then map_node f (s p) else s q

  -- The write, which is undefined through a dangling pointer.
  abbrev pub on_node : Option ℕ → (N → N) → (ℕ → Option N) → Option (ℕ → Option N)
  on_node none f s = some s
  on_node (some p) f s = elim (s p) [ none ↦ none | some n ↦ some (modify (some p) f s) ]

pub on_node-some :
    {N : Type 0} (s : ℕ → Option N) (f : N → N) (p : ℕ) (n : N)
    → s p ≡ some n
    → on_node (some p) f s ≡ some (modify (some p) f s)
on_node-some s f p n h = rw (h, on_node)

-- The two pointers of a node, and the writes to them.
pub record Ends (N : Type 0) : Type 0 where
  pub prev : N → Option ℕ
  pub next : N → Option ℕ
  pub set_prev : Option ℕ → N → N
  pub set_next : Option ℕ → N → N
  pub prev-set_prev : (p : Option ℕ) (n : N) → prev (set_prev p n) ≡ p
  pub next-set_prev : (p : Option ℕ) (n : N) → next (set_prev p n) ≡ next n
  pub prev-set_next : (p : Option ℕ) (n : N) → prev (set_next p n) ≡ prev n
  pub next-set_next : (p : Option ℕ) (n : N) → next (set_next p n) ≡ p

module _ {N : Type 0} (e : Ends N) where
  -- The node at `p` has the given neighbours.
  abbrev pub At : (ℕ → Option N) → ℕ → Option ℕ → Option ℕ → Type 0
  At s p before after = (n : N) × (s p ≡ some n) × (e.prev n ≡ before) × (e.next n ≡ after)

  -- A list from left to right, and one from right to left, with the neighbour at its near end.
  abbrev pub Fwd : (ℕ → Option N) → List ℕ → Option ℕ → Type 0
  Fwd s [] before = Unit {0}
  Fwd s (p ∷ ps) before = At s p before (head ps) × Fwd s ps (some p)

  abbrev pub Back : (ℕ → Option N) → List ℕ → Option ℕ → Type 0
  Back s [] after = Unit {0}
  Back s (p ∷ ps) after = At s p (head ps) after × Back s ps (some p)

  abbrev pub Linked : (ℕ → Option N) → List ℕ → List ℕ → Type 0
  Linked s ls rs = Back s ls (head rs) × Fwd s rs (head ls)

  -- The same list from another place.
  pub Linked-right :
      (s : ℕ → Option N) (ls ps rs : List ℕ) → Linked s ls (ps ++ rs) → Linked s (join ps ls) rs
  Linked-right s ls [] rs l = l
  Linked-right s ls (p ∷ ps) rs (back, (at_p, fwd)) =
      Linked-right s (p ∷ ls) ps rs ((at_p, back), fwd)

  pub Linked-left : (s : ℕ → Option N) (ls rs : List ℕ) → Linked s ls rs → Linked s [] (join ls rs)
  Linked-left s [] rs l = l
  Linked-left s (p ∷ ls) rs ((at_p, back), fwd) = Linked-left s ls (p ∷ rs) (back, (at_p, fwd))

  -- A list stays as it is in a store with the same nodes.
  abbrev pub Agree : (ℕ → Option N) → (ℕ → Option N) → List ℕ → Type 0
  Agree s t ps = (q : ℕ) → 1 ≤ count q ps → t q ≡ s q

  pub Fwd-Agree :
      (s t : ℕ → Option N) (ps : List ℕ) (b : Option ℕ) → Agree s t ps → Fwd s ps b → Fwd t ps b
  Fwd-Agree s t [] b a f = f
  Fwd-Agree s t (p ∷ ps) b a ((n, sp, pr, nx), f) = (
    (n, a p (count_head p ps) ∙ sp, pr, nx),
    Fwd-Agree s t ps (some p) (λ q h. a q (count_tail p q ps h)) f,
  )

  pub Back-Agree :
      (s t : ℕ → Option N) (ps : List ℕ) (b : Option ℕ) → Agree s t ps → Back s ps b → Back t ps b
  Back-Agree s t [] b a f = f
  Back-Agree s t (p ∷ ps) b a ((n, sp, pr, nx), f) = (
    (n, a p (count_head p ps) ∙ sp, pr, nx),
    Back-Agree s t ps (some p) (λ q h. a q (count_tail p q ps h)) f,
  )

  modify_other : (s : ℕ → Option N) (f : N → N) (p q : ℕ) → q ≢ p → modify (some p) f s q ≡ s q
  modify_other s f p q h = ground arith

  pub modify_self :
      (s : ℕ → Option N) (f : N → N) (p : ℕ) (n : N)
      → s p ≡ some n
      → modify (some p) f s p ≡ some (f n)
  modify_self s f p n h = ground (arith, h)

  -- A write to a node that is not in the list.
  pub Agree-modify :
      (s : ℕ → Option N) (f : N → N) (o : Option ℕ) (ps : List ℕ)
      → Absent o ps
      → Agree s (modify o f s) ps
  Agree-modify s f none ps a q h = refl
  Agree-modify s f (some p) ps a q h =
      modify_other s f p q λ qp. absurd (omega (arith, a, h, ap (λ x. count x ps) qp))

  -- The near end of a list is given another neighbour.
  Back-relink :
      (s : ℕ → Option N) (ls : List ℕ) (b b' : Option ℕ)
      → Distinct ls
      → Back s ls b
      → Back (modify (head ls) (e.set_next b') s) ls b'
  Back-relink s [] b b' d l = l
  Back-relink s (p ∷ ls) b b' d ((n, sp, pr, nx), l) = (
    (
      e.set_next b' n,
      modify_self s (e.set_next b') p n sp,
      e.prev-set_next b' n ∙ pr,
      e.next-set_next b' n,
    ),
    Back-Agree s (modify (some p) (e.set_next b') s) ls (some p)
        (Agree-modify s (e.set_next b') (some p) ls (absent_head p ls d)) l,
  )

  pub Fwd-relink :
      (s : ℕ → Option N) (rs : List ℕ) (b b' : Option ℕ)
      → Distinct rs
      → Fwd s rs b
      → Fwd (modify (head rs) (e.set_prev b') s) rs b'
  Fwd-relink s [] b b' d l = l
  Fwd-relink s (p ∷ rs) b b' d ((n, sp, pr, nx), l) = (
    (
      e.set_prev b' n,
      modify_self s (e.set_prev b') p n sp,
      e.prev-set_prev b' n,
      e.next-set_prev b' n ∙ nx,
    ),
    Fwd-Agree s (modify (some p) (e.set_prev b') s) rs (some p)
        (Agree-modify s (e.set_prev b') (some p) rs (absent_head p rs d)) l,
  )

  -- The two writes that make the ends of two lists neighbours.
  abbrev pub relink : List ℕ → Option ℕ → Option ℕ → List ℕ → (ℕ → Option N) → ℕ → Option N
  relink ls before after rs s =
      modify (head rs) (e.set_prev before) (modify (head ls) (e.set_next after) s)

  Back-relink_both :
      (s : ℕ → Option N) (ls rs : List ℕ) (b before after : Option ℕ)
      → ((q : ℕ) → count q ls + count q rs ≤ 1)
      → Back s ls b
      → Back (relink ls before after rs s) ls after
  Back-relink_both s ls rs b before after d l =
      let t = modify (head ls) (e.set_next after) s in
      Back-Agree t (modify (head rs) (e.set_prev before) t) ls after
        (Agree-modify t (e.set_prev before) (head rs) ls
          (Absent-head rs ls λ q. omega (arith, d q)))
        (Back-relink s ls b after (λ q. omega (arith, d q)) l)

  Fwd-relink_both :
      (s : ℕ → Option N) (ls rs : List ℕ) (b before after : Option ℕ)
      → ((q : ℕ) → count q ls + count q rs ≤ 1)
      → Fwd s rs b
      → Fwd (relink ls before after rs s) rs before
  Fwd-relink_both s ls rs b before after d l =
      let t = modify (head ls) (e.set_next after) s in
      Fwd-relink t rs b before (λ q. omega (arith, d q))
        (Fwd-Agree s t rs b (Agree-modify s (e.set_next after) (head ls) rs (Absent-head ls rs d))
          l)

  -- A node is taken out of a list.
  pub Linked-unlink :
      (s : ℕ → Option N) (ls rs : List ℕ) (p : ℕ)
      → ((q : ℕ) → count q ls + count q rs ≤ 1)
      → Linked s ls (p ∷ rs)
      → Linked (relink ls (head ls) (head rs) rs s) ls rs
  Linked-unlink s ls rs p d (back, (at_p, fwd)) = (
    Back-relink_both s ls rs (some p) (head ls) (head rs) d back,
    Fwd-relink_both s ls rs (some p) (head ls) (head rs) d fwd,
  )

  -- A new node is put between two lists.
  pub Linked-insert :
      (s : ℕ → Option N) (ls rs : List ℕ) (p : ℕ) (n : N)
      → ((q : ℕ) → count q ls + count q (p ∷ rs) ≤ 1)
      → e.prev n ≡ head ls
      → e.next n ≡ head rs
      → s p ≡ some n
      → Linked s ls rs
      → Linked (relink ls (some p) (some p) rs s) ls (p ∷ rs)
  Linked-insert s ls rs p n d pr nx sp (back, fwd) =
      let d' : (q : ℕ) → count q ls + count q rs ≤ 1 = λ q.
        omega (arith, d q, count_cons q p rs, count_step p q rs, count_step p q [], count_nil q) in
      let t = modify (head ls) (e.set_next (some p)) s in
      let there : modify (head rs) (e.set_prev (some p)) t p ≡ s p =
        Agree-modify t (e.set_prev (some p)) (head rs) (p ∷ [])
          (Absent-head rs (p ∷ []) λ q.
            omega
              (arith, d q, count_cons q p rs, count_step p q rs, count_step p q [], count_nil q))
          p (count_head p [])
        ∙ Agree-modify s (e.set_next (some p)) (head ls) (p ∷ [])
            (Absent-head ls (p ∷ []) λ q.
              omega
                (arith, d q, count_cons q p rs, count_step p q rs, count_step p q [], count_nil q))
            p (count_head p []) in
      (
        Back-relink_both s ls rs (head rs) (some p) (some p) d' back,
        ((n, there ∙ sp, pr, nx), Fwd-relink_both s ls rs (head ls) (some p) (some p) d' fwd),
      )

  -- The writes to the ends of a list are defined.
  pub on_node-Back :
      (s : ℕ → Option N) (f : N → N) (ls : List ℕ) (b : Option ℕ)
      → Back s ls b
      → on_node (head ls) f s ≡ some (modify (head ls) f s)
  on_node-Back s f [] b l = refl
  on_node-Back s f (p ∷ ls) b ((n, sp, pr, nx), l) = rw sp

  pub on_node-Fwd :
      (s : ℕ → Option N) (f : N → N) (rs : List ℕ) (b : Option ℕ)
      → Fwd s rs b
      → on_node (head rs) f s ≡ some (modify (head rs) f s)
  on_node-Fwd s f [] b l = refl
  on_node-Fwd s f (p ∷ rs) b ((n, sp, pr, nx), l) = rw sp
