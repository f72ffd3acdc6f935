-- ===== src/Index/Lookup.antt =====
-- kv_index.cc with data_file.cc: an index as a map from keys to values.
use pingkv.Base.{
  ℕ, suc, ◌+◌, ◌≤◌, ◌<◌, ◌≡◌, ◌≢◌, ◌⊎◌, inl, inr, refl, ap, sym, ◌∙◌, Bool, true, false, Option,
  none, some, List, [], ◌∷◌, ◌++◌, Bytes, length, arith, if◌then◌else◌, Bool-cases,
}
use mathlib.Core.Path.{subst}
use pingkv.Base.Memory.{Memory}
use pingkv.DataFile.{DataFile, Os, ok, max_block}
use pingkv.DataFile.Stored.{with_cache}
use pingkv.DataFile.Valid.{Works}
use pingkv.Index.{node_len, head_size, k_info_size, KInfo}
use pingkv.Index.Node.{less, equal, greater, cmp_key}
use pingkv.Index.Keys.{tree_fuel, set_in, get_in}
use pingkv.Index.Absent.{Leaves, find_key-Lacks}
use pingkv.Index.Order.{cmp_key-equal, cmp_key_self}
use pingkv.Index.Records.{Lacks, Below}
use pingkv.Index.Root.{root_of, get_root_runs}
use pingkv.Index.Search.{Order-cases, other_less}
use pingkv.Index.SetGet.{end_of-append}
use pingkv.Index.Values.{Entry, records, records-append, Values, IsIndex, used}
use pingkv.Index.Map.{get_in-IsIndex, set_in-IsIndex}

abbrev pub same_key : Bytes → Bytes → Bool
same_key k q = elim (cmp_key k q) [ equal ↦ true | less ↦ false | greater ↦ false ]

-- The value of the first entry with the key.
unfoldable pub lookup : Bytes → List Entry → Option Bytes
lookup q [] = none
lookup q (e ∷ es) = let rest = lookup q es in if same_key e.key q then some e.value else rest

same_key-equal : (k q : Bytes) → same_key k q ≡ true → k ≡ q
same_key-equal k q h = elim (Order-cases (cmp_key k q)) [
  | inl same ↦ cmp_key-equal k q same
  | inr (inl below) ↦ let off : false ≡ true = rw (same_key, below) at h in absurd (cc)
  | inr (inr above) ↦ let off : false ≡ true = rw (same_key, above) at h in absurd (cc)
]

same_key_self : (k : Bytes) → same_key k k ≡ true
same_key_self k = rw (same_key, cmp_key_self k) refl

Below-Lacks : (q : Bytes) (rs : List (KInfo × Bytes)) → Below q rs → Lacks q rs
Below-Lacks q [] b = tt
Below-Lacks q ((i, k) ∷ rs) (c, b) = (other_less c, Below-Lacks q rs b)

Values-Leaves : (d : DataFile) (es : List Entry) → Values d.blocks es → Leaves (records es)
Values-Leaves d [] v = tt
Values-Leaves d (e ∷ es) ((lt, leaf, fits, s), v) = (leaf, Values-Leaves d es v)

-- A list of entries without the key, or split at the first one with the key.
record Split (q : Bytes) (es : List Entry) : Type 0 where
  front : List Entry
  entry : Entry
  back : List Entry
  whole : es ≡ front ++ entry ∷ back
  first : Lacks entry.key (records front)
  key_ok : entry.key ≡ q
  found : lookup q es ≡ some entry.value

split_at :
    (q : Bytes) (es : List Entry) → (Lacks q (records es) × (lookup q es ≡ none)) ⊎ Split q es
unfolding lookup
split_at q [] = inl (tt, refl)
split_at q (e ∷ es) = elim (Bool-cases (same_key e.key q)) [
  | inl same ↦ inr (record {
    front = [];
    entry = e;
    back = es;
    whole = refl;
    first = tt;
    key_ok = same_key-equal e.key q same;
    found = rw (lookup, same) refl;
  })
  | inr other ↦
      let apart : e.key ≢ q =
        λ h. let same : same_key e.key q ≡ true = rw h (same_key_self q) in absurd (cc) in
      elim (split_at q es) [
        | inl (lacks, none_there) ↦ inl ((apart, lacks), rw (lookup, other) none_there)
        | inr s ↦ inr (record {
          front = e ∷ s.front;
          entry = s.entry;
          back = s.back;
          whole = ap (◌∷◌ e) s.whole;
          first = (λ h. apart (h ∙ s.key_ok), s.first);
          key_ok = s.key_ok;
          found = rw (lookup, other) s.found;
        })
      ]
]

-- A new entry behind entries that do not have its key.
lookup-append :
    (k : Bytes) (es : List Entry) (e : Entry)
    → Lacks e.key (records es)
    → lookup k (es ++ e ∷ []) ≡ (if same_key e.key k then some e.value else lookup k es)
unfolding lookup
lookup-append k [] e lacks = refl
lookup-append k (f ∷ es) e (apart, lacks) = elim (Bool-cases (same_key f.key k)) [
  | inl same ↦ elim (Bool-cases (same_key e.key k)) [
    | inl both ↦ absurd (apart (same_key-equal f.key k same ∙ sym (same_key-equal e.key k both)))
    | inr other ↦ rw (lookup, same, other) refl
  ]
  | inr there ↦ rw (lookup, there) (lookup-append k es e lacks)
]

module _ (os : Os) (fresh : Memory) (works : Works os) where
  get_in-lookup :
      (d : DataFile) (es : List Entry) (k : Bytes)
      → IsIndex d es
      → 0 < length k
      → length k ≤ 8124
      → used es + k_info_size ≤ node_len
      → (c : List (ℕ × Bool)) × (get_in os fresh k d ≡ ok (lookup k es) (with_cache d c))
  unfolding get_in
  get_in-lookup d es k x some_key short room = elim (split_at k es) [
    | inl (lacks, none_there) ↦
        let (c, reads) = get_root_runs os fresh d (records es) x.root works.maps in
        let m = root_of x.root.block x.root.index in
        let finds =
          find_key-Lacks os fresh d.info.block_count m (records es) k (with_cache d c) x.root.node
            (Values-Leaves d es x.values) lacks some_key short room in
        let fuel : tree_fuel d ≡ suc d.info.block_count = omega arith in
        (c, ground (arith, fuel, reads, finds, none_there))
    | inr s ↦
        let (c, reads) =
          get_in-IsIndex os fresh works d s.front s.back s.entry (subst (IsIndex d) s.whole x)
            s.first in
        let at_k : get_in os fresh k d ≡ ok (some s.entry.value) (with_cache d c) =
          subst (λ q. get_in os fresh q d ≡ ok (some s.entry.value) (with_cache d c)) s.key_ok
            reads in
        (c, at_k ∙ ap (λ v. ok v (with_cache d c)) (sym s.found))
  ]

  -- In a valid file whose root holds keys with their values, with room below the last block that can be
  -- mapped for a block for each byte of the value and for 129 more: `set_in` of a key above all of
  -- them, for which the root has room and 12 bytes more, succeeds when the system calls do, and after it `get_in` of a key of 1 to 8124 bytes gives the new value for the
  -- new key, and for another key the value that it had, or none if it had none.
  pub get_in-set_in :
      (d : DataFile) (es : List Entry) (q value k : Bytes)
      → IsIndex d es
      → Below q (records es)
      → used es + k_info_size + length q + k_info_size ≤ node_len
      → d.info.used_block_count + length value + 129 ≤ max_block
      → 0 < length k
      → length k ≤ 8124
      → (d' : DataFile) × (set_in os fresh q value d ≡ ok tt d')
        × ((c : List (ℕ × Bool)) × (get_in os fresh k d'
              ≡ ok (if same_key q k then some value else lookup k es) (with_cache d' c)))
  get_in-set_in d es q value k x below room small some_key short =
      let (i, d', sets, x') =
        set_in-IsIndex os fresh works d es q value x below (omega arith) small in
      let new : Entry = record { info = i; key = q; value = value } in
      let more : used (es ++ new ∷ []) + k_info_size ≤ node_len =
        rw (records-append es (new ∷ []), end_of-append head_size (records es) i q) room in
      let (c, reads) = get_in-lookup d' (es ++ new ∷ []) k x' some_key short more in
      (d', sets, (c, rw (← lookup-append k es new (Below-Lacks q (records es) below)) reads))
