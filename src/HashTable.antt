-- ===== src/HashTable.antt =====
-- pingkv/src/tool/hashtable.h: the hash table, an array of buckets, each a `linklist` of pointers to
-- elements, and the comparison of ints of tool/container_default_funcs.cc.
--
-- A pointer to an element is a number, and `elems` is what the pointers lead to; `none` is memory
-- that was freed or never allocated. The outer `none` of a result is undefined behaviour. The hash
-- callback returns the 64 bits of a `long`. The element that `find` and `del` make on the stack has
-- an address that no other element has; the value in it is `unset`.
pub mod Count
pub mod Add
pub mod Remove
pub mod Map
mod Iterator
pub mod Rows
pub mod Find
pub mod Change
mod Tests
use pingkv.Base.{
  ℕ, zero, suc, ◌+◌, ◌-◌, ◌*◌, ◌/◌, ◌%◌, ◌^◌, Bool, true, false, not, ◌&&◌, ◌||◌, Option, none,
  some, ltb, leb, ◌==◌, if◌then◌else◌, List, [], ◌∷◌,
}
use pingkv.Base.Int.{ℤ, pos, negsuc, is_zero, add_to, take_from}
use pingkv.Base.Bits.{bit_and}
use pingkv.Base.Maybe.{◌>>=◌}
use pingkv.LinkList.{Node, LinkList, contains, append, del_node, destroy_nodes}
use pingkv.LinkList as LinkList

-- `int_compare`
abbrev pub int_compare : ℕ → ℕ → ℤ
int_compare a b = if a == b then pos 0 else if ltb b a then pos 1 else negsuc 0

-- The loop of `_make_bucket_count`, a round on each fuel; the product is an `int`, and to leave its
-- range is undefined.
unfoldable pub double_until : ℕ → ℕ → ℕ → Option ℕ
double_until zero i n = none
double_until (suc fuel) i n =
    let rest = double_until fuel (i * 2) n in
    if ltb i n then (if ltb (i * 2) (2 ^ 31) then rest else none) else some i

-- `_make_bucket_count`; a negative count is treated as 0 is.
unfoldable pub make_bucket_count : ℕ → Option ℕ
unfolding double_until
make_bucket_count n = double_until 25 128 n

-- `hash_table::element`
pub record Element (K V : Type 0) : Type 0 where
  pub k : K
  pub v : V

-- `hash_table`, without its callbacks and mutexes
pub record HashTable (K V : Type 0) : Type 0 where
  pub size : ℤ
  pub bucket_count : ℕ
  pub default_value : V
  pub buckets : ℕ → LinkList (Option ℕ)
  pub elems : ℕ → Option (Element K V)
  pub allocated : ℕ

abbrev pub same_ptr : Option ℕ → Option ℕ → Bool
same_ptr none none = true
same_ptr none (some q) = false
same_ptr (some p) none = false
same_ptr (some p) (some q) = p == q

abbrev pub put_bucket :
    (ℕ → LinkList (Option ℕ)) → ℕ → LinkList (Option ℕ) → ℕ → LinkList (Option ℕ)
put_bucket bs i l j = if j == i then l else bs j

-- The loop of `_free_buckets` from bucket `i` on.
unfoldable pub free_from : ℕ → ℕ → (ℕ → LinkList (Option ℕ)) → Option (ℕ → LinkList (Option ℕ))
free_from zero i bs = some bs
free_from (suc n) i bs = do l ← destroy_nodes (bs i); free_from n (i + 1) (put_bucket bs i l)

module _ {K V : Type 0} where
  abbrev pub put_elem :
      (ℕ → Option (Element K V)) → ℕ → Option (Element K V) → ℕ → Option (Element K V)
  put_elem s p e q = if q == p then e else s q

  -- An access through a pointer.
  abbrev pub deref : (ℕ → Option (Element K V)) → Option ℕ → Option (Element K V)
  deref s none = none
  deref s (some p) = s p

  module _ (comp : K → K → ℤ) where
    -- `comp_elem`
    unfoldable pub comp_elem : (ℕ → Option (Element K V)) → Option ℕ → Option ℕ → Option ℤ
    comp_elem s none none = some (pos 0)
    comp_elem s (some p) none = some (pos 1)
    comp_elem s none (some q) = some (negsuc 0)
    comp_elem s (some p) (some q) =
        if p == q then some (pos 0) else do a ← s p; b ← s q; some (comp a.k b.k)

    module _ (hash : K → ℕ) where
      -- `_hash_func(k) & (_bucket_count - 1)`; an index out of the array is undefined.
      unfoldable pub bucket_of : HashTable K V → K → Option ℕ
      unfolding bit_and
      bucket_of t k =
          let i = bit_and 64 (hash k) (t.bucket_count - 1) in
          if ltb i t.bucket_count then some i else none

      -- `find`; `unset` is the value of the element that it makes for the comparison.
      unfoldable pub find : V → K → HashTable K V → Option V
      unfolding bucket_of comp_elem
      find unset k t = do
        i ← bucket_of t k
        let p = t.allocated
        let s = put_elem t.elems p (some (record { k = k; v = unset }))
        o ← contains (comp_elem s) (some p) (t.buckets i)
        elim o [
          | none ↦ some t.default_value
          | some n ↦ (do m ← (t.buckets i).nodes n; e ← deref t.elems m.elem; some e.v)
        ]

      -- `_add_elem`; the number is what it returns.
      unfoldable pub add_elem : ℕ → K → V → HashTable K V → Option (ℕ × HashTable K V)
      unfolding comp_elem
      add_elem i k v t =
          let p = t.allocated in
          let s = put_elem t.elems p (some (record { k = k; v = v })) in
          (do
            o ← contains (comp_elem s) (some p) (t.buckets i)
            elim o [
              | none ↦ (do
                l ← append (some p) (t.buckets i)
                some (
                  1,
                  record t { buckets = put_bucket t.buckets i l; elems = s; allocated = p + 1 },
                ))
              | some n ↦ (do
                m ← (t.buckets i).nodes n
                let s₁ = put_elem s p none
                e ← deref s₁ m.elem
                some (
                  0,
                  record t {
                    elems = λ q.
                        if same_ptr (some q) m.elem then some (record { k = k; v = v }) else s₁ q;
                    allocated = p + 1;
                  },
                ))
            ])

      -- `add_or_replace`
      unfoldable pub add_or_replace : K → V → HashTable K V → Option (Bool × HashTable K V)
      unfolding bucket_of add_elem
      add_or_replace k v t = do
        i ← bucket_of t k
        (r, t₁) ← add_elem i k v t
        some (not (r == 0), record t₁ { size = add_to t₁.size r })

      -- `del`
      unfoldable pub del : V → K → HashTable K V → Option (Bool × HashTable K V)
      unfolding bucket_of comp_elem
      del unset k t = do
        i ← bucket_of t k
        let p = t.allocated
        let s = put_elem t.elems p (some (record { k = k; v = unset }))
        o ← contains (comp_elem s) (some p) (t.buckets i)
        elim o [
          | none ↦ some (false, t)
          | some n ↦ (do
            m ← (t.buckets i).nodes n
            l ← del_node n (t.buckets i)
            some (
              true,
              record t {
                buckets = put_bucket t.buckets i l;
                elems = λ q. if same_ptr (some q) m.elem then none else t.elems q;
                size = take_from t.size 1;
              },
            ))
        ]

  -- `destroy` and `_free_buckets`: the elements are not freed.
  unfoldable pub destroy : HashTable K V → Option (HashTable K V)
  unfolding free_from
  destroy t = do bs ← free_from t.bucket_count 0 t.buckets; some (record t { buckets = bs })
