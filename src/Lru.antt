-- ===== src/Lru.antt =====
-- pingkv/src/cache/kv_lru.h and kv_lru.cc: the cache of values, a table of buckets and a list from
-- the node used last (`hot`) to the one used longest ago (`cold`), and tool/llist.cc, the list of a
-- bucket.
--
-- A pointer to a node is a number, and `nodes` is what the pointers lead to; `none` is memory that
-- was freed or never allocated. A bucket is the list of the pointers that its `llist` holds, so that
-- `push_back` appends and `del` takes one out. `new char[n]` returns bytes that the source does not
-- set: they are the parameter `fresh`. `_size` is an `int` without a width; it can fall below 0.
mod Recency
mod Tests
use pingkv.Base.{
  ℕ, zero, suc, ◌+◌, ◌-◌, ◌*◌, ◌/◌, Bool, true, false, Option, none, some, List, [], ◌∷◌, ◌++◌,
  Bytes, length, ◌||◌, ◌&&◌, not, ltb, leb, ◌==◌, if◌then◌else◌, get_elem?, set, take, replicate,
  bytes_eq,
}
use pingkv.Base.Int.{ℤ, pos, negsuc, add_to, take_from, above, is_neg, abs}
use pingkv.Base.Links.{is_ptr}
use pingkv.Base.Links as Links
use pingkv.Base.Maybe.{◌>>=◌}
use pingkv.Hash.{lru_hash}

-- `kv_lru::lru_node`, without `ref_count`, which nothing reads. `k_len` and `v_len` are the lengths
-- of `k` and `v`.
pub record LruNode : Type 0 where
  pub k : Bytes
  pub v : Bytes
  pub prev : Option ℕ
  pub next : Option ℕ

-- `kv_lru` with its `lru_head`
pub record Lru : Type 0 where
  pub tab : List (List ℕ)
  pub size : ℤ
  pub max_size : ℕ
  pub max_elem_size : ℕ
  pub node_count : ℕ
  pub hot : Option ℕ
  pub cold : Option ℕ
  pub nodes : ℕ → Option LruNode
  pub allocated : ℕ

-- `init`
abbrev pub init : ℕ → ℕ → ℕ → Lru
init bucket_count max_size max_elem_size = record {
  tab = replicate bucket_count [];
  size = pos 0;
  max_size = max_size;
  max_elem_size = max_elem_size;
  node_count = 0;
  hot = none;
  cold = none;
  nodes = λ _. none;
  allocated = 0;
}

abbrev pub set_node : Lru → ℕ → Option LruNode → Lru
set_node c p n = record c { nodes = λ q. if q == p then n else c.nodes q }

-- A write to the node that a pointer leads to, if it is not null.
abbrev pub on_node : Option ℕ → (LruNode → LruNode) → Lru → Option Lru
on_node p f c = do s ← Links.on_node p f c.nodes; some (record c { nodes = s })

abbrev pub first_of : Option ℕ → Option ℕ → Option ℕ
first_of none p = p
first_of (some q) p = some q

-- `_lru_insert`
unfoldable pub lru_insert : ℕ → Lru → Option Lru
lru_insert p c = do
  c₁ ← on_node c.hot (λ h. record h { prev = some p }) c
  c₂ ← on_node (some p) (λ n. record n { next = c.hot }) c₁
  n ← c₂.nodes p
  some (record c₂ {
    hot = some p;
    cold = first_of c.cold (some p);
    node_count = c.node_count + 1;
    size = add_to (add_to c.size (length n.k)) (length n.v);
  })

-- `_lru_del`
unfoldable pub lru_del : ℕ → Lru → Option Lru
lru_del p c = do
  n ← c.nodes p
  let c₁ = record c {
    hot = if is_ptr c.hot p then n.next else c.hot;
    cold = if is_ptr c.cold p then n.prev else c.cold;
  }
  c₂ ← on_node n.prev (λ m. record m { next = n.next }) c₁
  c₃ ← on_node n.next (λ m. record m { prev = n.prev }) c₂
  c₄ ← on_node (some p) (λ m. record m { prev = none; next = none }) c₃
  some (record c₄ {
    node_count = c.node_count - 1;
    size = take_from (take_from c.size (length n.k)) (length n.v);
  })

-- `_tab + _lru_hash(k, k_len, _bucket_count)`; an index out of the table is undefined.
unfoldable pub bucket_no : Lru → Bytes → Option ℕ
unfolding lru_hash
bucket_no c k =
    let h = lru_hash k (length c.tab) in
    if is_neg h || leb (length c.tab) (abs h) then none else some (abs h)

-- `memcmp(a, b, n) == 0`; to read behind the end of a block of memory is undefined.
unfoldable pub mem_equal : ℕ → Bytes → Bytes → Option Bool
mem_equal n a b =
    if leb n (length a) && leb n (length b) then some (bytes_eq (take n a) (take n b)) else none

-- The loop of `_get`. The condition assigns its own truth value to `k_len`, so that the nodes after
-- the first are compared in no bytes.
unfoldable pub get_loop : Bytes → ℕ → List ℕ → Lru → Option (Option ℕ × Lru)
unfolding mem_equal
get_loop k k_len [] c = some (none, c)
get_loop k k_len (p ∷ ps) c = do
  n ← c.nodes p
  same ← (if length n.k == 0 then some false else mem_equal k_len k n.k)
  let rest = get_loop k 0 ps c
  (if same then (do c₁ ← lru_del p c; c₂ ← lru_insert p c₁; some (some p, c₂)) else rest)

-- `_get(lru_node**, k, k_len)`
unfoldable pub get_node : Bytes → Lru → Option (Option ℕ × Lru)
unfolding bucket_no
get_node k c = do i ← bucket_no c k; ps ← get_elem? c.tab i; get_loop k (length k) ps c

-- `_get(v, v_len, k, k_len)` and `get`; `none` inside is the null value.
unfoldable pub get : Bytes → Lru → Option (Option Bytes × Lru)
unfolding get_node
get k c = do
  (p, c₁) ← get_node k c
  elim p [ none ↦ some (none, c₁) | some q ↦ (do n ← c₁.nodes q; some (some n.v, c₁)) ]

-- `llist::del` of the first element with the pointer.
unfoldable pub remove_ptr : ℕ → List ℕ → List ℕ
remove_ptr p [] = []
remove_ptr p (q ∷ qs) = let rest = remove_ptr p qs in if p == q then qs else q ∷ rest

abbrev pub has_ptr : ℕ → List ℕ → Bool
has_ptr p [] = false
has_ptr p (q ∷ qs) = (p == q) || has_ptr p qs

-- `_del`; a null pointer is undefined. A node that its bucket does not hold is not freed.
unfoldable pub del_node : Option ℕ → Lru → Option Lru
unfolding lru_del bucket_no remove_ptr
del_node none c = none
del_node (some p) c = do
  c₁ ← lru_del p c
  n ← c₁.nodes p
  i ← bucket_no c₁ n.k
  ps ← get_elem? c₁.tab i
  (if has_ptr p ps
      then some (record (set_node c₁ p none) { tab = set c₁.tab i (remove_ptr p ps) })
      else some c₁)

-- The loop of `_ageout`, with a round for each node and one more.
unfoldable pub ageout : ℕ → Lru → Option Lru
unfolding del_node
ageout zero c = none
ageout (suc fuel) c =
    if above c.size (c.max_size / 2) then (do c₁ ← del_node c.cold c; ageout fuel c₁) else some c

module _ (fresh : ℕ → Bytes) where
  -- `_init_lru_node`
  abbrev pub new_node : Bytes → Bytes → LruNode
  new_node k v = record { k = fresh (length k); v = fresh (length v); prev = none; next = none }

  -- `_set`: the bytes of a new node are not the key and the value that it is for.
  unfoldable pub set_in : Bytes → Bytes → Lru → Option Lru
  unfolding get_node bucket_no lru_insert
  set_in k v c = do
    (p, c₁) ← get_node k c
    elim p [
      | some q ↦ on_node (some q) (λ n. record n { v = v }) c₁
      | none ↦ (do
        let p' = c₁.allocated
        c₂ ← lru_insert p' (record (set_node c₁ p' (some (new_node k v))) { allocated = p' + 1 })
        i ← bucket_no c₂ k
        ps ← get_elem? c₂.tab i
        some (record c₂ { tab = set c₂.tab i (ps ++ p' ∷ []) }))
    ]

  -- `set`
  unfoldable pub set_cache : Bytes → Bytes → Lru → Option Lru
  unfolding set_in ageout
  set_cache k v c = if ltb c.max_elem_size (length k + length v) then some c else do
    c₁ ← (if above c.size c.max_size then ageout (c.node_count + 1) c else some c)
    set_in k v c₁
