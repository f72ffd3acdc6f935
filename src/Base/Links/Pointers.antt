-- ===== src/Base/Links/Pointers.antt =====
-- Lists of pointers: their ends, and how often a pointer is in one.
use Prim.Native.Nat.{ℕ, ◌+◌, ◌≤◌}
use mathlib.Core.Path.{◌≡◌, refl, ap, sym}
use mathlib.Core.Bool.{Bool, false}
use mathlib.Core.Option.{Option, none, some}
use mathlib.Core.List.{List, [], ◌∷◌, ◌++◌}
use native.Mathlib.Omega.{arith}
use pingkv.Base.Tests.{◌==◌, if◌then◌else◌}

abbrev pub is_ptr : Option ℕ → ℕ → Bool
is_ptr none p = false
is_ptr (some q) p = q == p

-- The first pointer of a list, null for none.
abbrev pub head : List ℕ → Option ℕ
head [] = none
head (p ∷ ps) = some p

-- The left pointers put back in front of the right ones.
abbrev pub join : List ℕ → List ℕ → List ℕ
join [] rs = rs
join (p ∷ ls) rs = join ls (p ∷ rs)

pub join-join : (ps ls qs : List ℕ) → join (join ps ls) qs ≡ join ls (ps ++ qs)
join-join [] ls qs = refl
join-join (p ∷ ps) ls qs = join-join ps (p ∷ ls) qs

pub join-append : (ps qs ls : List ℕ) → join (ps ++ qs) ls ≡ join qs (join ps ls)
join-append [] qs ls = refl
join-append (p ∷ ps) qs ls = join-append ps qs (p ∷ ls)

pub join_cons :
    (ps : List ℕ) (p : ℕ) (ls : List ℕ) → (n : ℕ) × (ms : List ℕ) × (join ps (p ∷ ls) ≡ n ∷ ms)
join_cons [] p ls = (p, ls, refl)
join_cons (q ∷ ps) p ls = join_cons ps q (p ∷ ls)

pub count : ℕ → List ℕ → ℕ
count q [] = 0
count q (p ∷ ps) = (if p == q then 1 else 0) + count q ps

pub count_nil : (q : ℕ) → count q [] ≡ 0
unfolding count
count_nil q = refl

pub count_step : (p q : ℕ) (ps : List ℕ) → count q (p ∷ ps) ≡ (if p == q then 1 else 0) + count q ps
unfolding count
count_step p q ps = refl

pub count_one : (p q : ℕ) → count q (p ∷ []) ≡ (if p == q then 1 else 0)
unfolding count
count_one p q = omega arith

pub count-append : (q : ℕ) (ps rs : List ℕ) → count q (ps ++ rs) ≡ count q ps + count q rs
unfolding count
count-append q [] rs = omega arith
count-append q (p ∷ ps) rs = ground (arith, count-append q ps rs)

pub count-join : (q : ℕ) (ls rs : List ℕ) → count q (join ls rs) ≡ count q ls + count q rs
unfolding count
count-join q [] rs = omega arith
count-join q (p ∷ ls) rs = ground (arith, count-join q ls (p ∷ rs))

pub count_head : (p : ℕ) (ps : List ℕ) → 1 ≤ count p (p ∷ ps)
unfolding count
count_head p ps = ground arith

pub count_tail : (p q : ℕ) (ps : List ℕ) → 1 ≤ count q ps → 1 ≤ count q (p ∷ ps)
unfolding count
count_tail p q ps h = ground arith

-- The far end of a list that is not empty, whatever stands in front of it.
pub last_of :
    (ps : List ℕ) (q : ℕ)
    → (r : ℕ) × (1 ≤ count r (q ∷ ps)) × ((ls : List ℕ) → head (join ps (q ∷ ls)) ≡ some r)
last_of [] q = (q, count_head q [], λ ls. refl)
last_of (p ∷ ps) q =
    let (r, c, e) = last_of ps p in (r, count_tail q r (p ∷ ps) c, λ ls. e (q ∷ ls))

-- No pointer occurs twice.
abbrev pub Distinct : List ℕ → Type 0
Distinct ps = (q : ℕ) → count q ps ≤ 1

pub count_cons : (p q : ℕ) (ps : List ℕ) → count p ps ≤ count p (q ∷ ps)
unfolding count
count_cons p q ps = ground arith

pub absent_head : (p : ℕ) (ps : List ℕ) → Distinct (p ∷ ps) → count p ps ≡ 0
unfolding count
absent_head p ps d = let h = d p in ground (arith, h)

abbrev pub Absent : Option ℕ → List ℕ → Type 0
Absent none ps = Unit {0}
Absent (some p) ps = count p ps ≡ 0

pub Absent-head : (ps qs : List ℕ) → ((q : ℕ) → count q ps + count q qs ≤ 1) → Absent (head ps) qs
unfolding count
Absent-head [] qs d = tt
Absent-head (p ∷ ps) qs d = let h = d p in ground (arith, h)

-- The ends of a list after a pointer is taken out of it.
pub begin_after :
    (ps qs : List ℕ) (p : ℕ)
    → count p ps ≡ 0
    → (if is_ptr (head (ps ++ p ∷ qs)) p then head qs else head (ps ++ p ∷ qs)) ≡ head (ps ++ qs)
begin_after [] qs p a = ground arith
begin_after (q ∷ ps) qs p a =
    let h = count_head q ps in
    let f : q ≡ p → count p (q ∷ ps) ≡ count q (q ∷ ps) = λ e. ap (λ x. count x (q ∷ ps)) (sym e) in
    ground (arith, h, f, a)

pub end_after :
    (qs ls : List ℕ) (p : ℕ)
    → count p qs ≡ 0
    → (if is_ptr (head (join qs (p ∷ ls))) p then head ls else head (join qs (p ∷ ls)))
      ≡ head (join qs ls)
end_after [] ls p a = ground arith
end_after (q ∷ qs) ls p a =
    let (r, c, e) = last_of qs q in
    let f : r ≡ p → count p (q ∷ qs) ≡ count r (q ∷ qs) = λ k. ap (λ x. count x (q ∷ qs)) (sym k) in
    rw (e (p ∷ ls), e ls) (ground (arith, c, f, a))

pub Distinct-count : (p : ℕ) (ps : List ℕ) → count p ps ≡ 0 → Distinct ps → Distinct (p ∷ ps)
unfolding count
Distinct-count p ps a d q =
    let f : q ≡ p → count q ps ≡ count p ps = ap (λ r. count r ps) in
    let e = d q in ground (arith, a, e, f)
