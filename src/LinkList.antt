-- ===== src/LinkList.antt =====
-- pingkv/src/tool/linklist.h: the doubly linked list of the containers.
--
-- A pointer to a node is a number, and `nodes` is what the pointers lead to; `none` is memory that
-- was freed or never allocated. The outer `none` of a result is a use of such memory. A comparison
-- is a callback, whose own `none` is undefined behaviour of it.
pub mod Links
pub mod Search
pub mod Append
pub mod Del
mod Tests
use pingkv.Base.{ℕ, zero, suc, ◌+◌, ◌-◌, Bool, true, false, Option, none, some, ◌==◌, if◌then◌else◌}
use pingkv.Base.Int.{ℤ, is_zero}
use pingkv.Base.Links.{is_ptr}
use pingkv.Base.Maybe.{◌>>=◌}
use pingkv.Base.Links.{on_node}

-- `linklist::node`; `elem` is its `data`.
pub record Node (T : Type 0) : Type 0 where
  pub elem : T
  pub prev : Option ℕ
  pub next : Option ℕ

-- `linklist`, without its callbacks
pub record LinkList (T : Type 0) : Type 0 where
  pub size : ℕ
  pub begin : Option ℕ
  pub end : Option ℕ
  pub nodes : ℕ → Option (Node T)
  pub allocated : ℕ

module _ {T : Type 0} where
  abbrev pub set_prev : Option ℕ → Node T → Node T
  set_prev p n = record n { prev = p }

  abbrev pub set_next : Option ℕ → Node T → Node T
  set_next p n = record n { next = p }

  abbrev pub put_node : (ℕ → Option (Node T)) → ℕ → Option (Node T) → ℕ → Option (Node T)
  put_node s p n q = if q == p then n else s q

  -- `init`
  abbrev pub init : LinkList T
  init = record { size = 0; begin = none; end = none; nodes = λ _. none; allocated = 0 }

  -- `_insert_front`
  unfoldable pub insert_front : Option ℕ → ℕ → (ℕ → Option (Node T)) → Option (ℕ → Option (Node T))
  insert_front none p s = some s
  insert_front (some n) p s = do
    m ← s n
    let pre = m.prev
    s₁ ← on_node (some p) (λ k. set_next (some n) (set_prev pre k)) s
    s₂ ← on_node (some n) (set_prev (some p)) s₁
    on_node pre (set_next (some p)) s₂

  -- `_insert_after`
  unfoldable pub insert_after : Option ℕ → ℕ → (ℕ → Option (Node T)) → Option (ℕ → Option (Node T))
  insert_after none p s = some s
  insert_after (some n) p s = do
    m ← s n
    let nxt = m.next
    s₁ ← on_node (some p) (λ k. set_next nxt (set_prev (some n) k)) s
    s₂ ← on_node (some n) (set_next (some p)) s₁
    on_node nxt (set_prev (some p)) s₂

  -- `_del_node`
  unfoldable pub unlink : ℕ → (ℕ → Option (Node T)) → Option (ℕ → Option (Node T))
  unlink p s = do
    n ← s p
    s₁ ← on_node n.prev (set_next n.next) s
    on_node n.next (set_prev n.prev) s₁

  -- The loop of `contains`.
  unfoldable pub contains_from :
      (T → T → Option ℤ) → T → ℕ → (ℕ → Option (Node T)) → Option ℕ → Option (Option ℕ)
  contains_from comp x fuel s none = some none
  contains_from comp x zero s (some p) = none
  contains_from comp x (suc fuel) s (some p) = do
    n ← s p
    r ← comp n.elem x
    let rest = contains_from comp x fuel s n.next
    if is_zero r then some (some p) else rest

  -- `contains`, with a round for each node.
  unfoldable pub contains : (T → T → Option ℤ) → T → LinkList T → Option (Option ℕ)
  unfolding contains_from
  contains comp x l = contains_from comp x l.size l.nodes l.begin

  -- `append`
  unfoldable pub append : T → LinkList T → Option (LinkList T)
  unfolding insert_after
  append x l =
      let p = l.allocated in
      let s = put_node l.nodes p (some (record { elem = x; prev = none; next = none })) in
      (if l.size == 0
        then some (record {
          size = l.size + 1;
          begin = some p;
          end = some p;
          nodes = s;
          allocated = p + 1;
        })
        else (do
          s₁ ← insert_after l.end p s
          some (record {
            size = l.size + 1;
            begin = l.begin;
            end = some p;
            nodes = s₁;
            allocated = p + 1;
          })))

  -- `del(const node*)`
  unfoldable pub del_node : ℕ → LinkList T → Option (LinkList T)
  unfolding unlink
  del_node p l = do
    n ← l.nodes p
    s ← unlink p l.nodes
    some (record l {
      begin = if is_ptr l.begin p then n.next else l.begin;
      end = if is_ptr l.end p then n.prev else l.end;
      nodes = put_node s p none;
      size = l.size - 1;
    })

  -- `del(const T&)`
  unfoldable pub del : (T → T → Option ℤ) → T → LinkList T → Option (Bool × LinkList T)
  unfolding contains del_node
  del comp x l = do
    o ← contains comp x l
    elim o [ none ↦ some (false, l) | some p ↦ (do l₁ ← del_node p l; some (true, l₁)) ]

  -- The loop of `destroy_nodes`: to follow a null pointer is undefined.
  unfoldable pub destroy_from : ℕ → Option ℕ → (ℕ → Option (Node T)) → Option (ℕ → Option (Node T))
  destroy_from zero o s = some s
  destroy_from (suc size) none s = none
  destroy_from (suc size) (some p) s = do n ← s p; destroy_from size n.next (put_node s p none)

  -- `destroy_nodes`
  unfoldable pub destroy_nodes : LinkList T → Option (LinkList T)
  unfolding destroy_from
  destroy_nodes l = do
    s ← destroy_from l.size l.begin l.nodes
    some (record l { size = 0; begin = none; end = none; nodes = s })
