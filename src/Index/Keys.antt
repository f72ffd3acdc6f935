-- ===== src/Index/Keys.antt =====
-- The interface of kv_index.cc: an index is opened, and values are read, written and deleted through
-- the cache.
use pingkv.Base.{ℕ, ◌+◌, ◌*◌, Bool, ◌&&◌, Option, none, some, Bytes, length, ◌==◌, if◌then◌else◌}
use pingkv.Base.Int.{pos, negsuc}
use pingkv.Base.Memory.{Memory, slice}
use pingkv.DataFile.{DataFile, Os, ok, err, crash, M, pure, fail, ◌>>=◌, ◌>>◌}
use pingkv.DataFile.Block.{block_free_bytes}
use pingkv.DataFile.File.{closed, exists, create_file, open_file, write_row, read_row, flush_blocks}
use pingkv.Lru.{Lru, init, get, set_cache}
use pingkv.Index.{node_len, put_int}
use pingkv.Index.Tree.{get_root, find_key, set_key, del_key}

-- `kv_index`
pub record KvIndex : Type 0 where
  pub dbname : Bytes
  pub file_id : ℕ
  pub dbf : DataFile
  pub lru : Lru

-- `init`, with the sizes of the cache that it asks for (`BUFSIZ` is 8192).
abbrev pub new_index : Bytes → ℕ → KvIndex
new_index dbname file_id = record {
  dbname = dbname;
  file_id = file_id;
  dbf = closed;
  lru = init 8192 (8192 * 1024) 1024;
}

-- A call's result with the index after it, -1, or undefined behaviour.
pub data Answer (A : Type 0) : Type 0 where
  answer : A → KvIndex → Answer A
  minus_one : KvIndex → Answer A
  undefined_call : Answer A

-- A command on the data file of an index.
abbrev pub on_file : {A : Type 0} → M A → KvIndex → Answer A
on_file m x = elim (m x.dbf) [
  | ok a d ↦ answer a (record x { dbf = d })
  | err d ↦ minus_one (record x { dbf = d })
  | crash ↦ undefined_call
]

-- As many levels as the file has blocks.
abbrev pub tree_fuel : DataFile → ℕ
tree_fuel d = d.info.block_count + 1

-- The data that `_create` writes for the root.
abbrev pub root_node : Memory
root_node = put_int 4 (λ _. 0) 0 2

module _ (os : Os) (fresh : Memory) where
  -- `_create`
  unfoldable pub create_root : M (Unit {0})
  create_root = do
    (id, idx) ← write_row os (slice root_node 0 node_len)
    if id == 2 && idx == 1 then pure tt else fail

  -- The end of `_open`: the root is written to a file that has no row yet. A call of
  -- `block_free_bytes` that fails gives -1, which is not the size of a node.
  unfoldable pub create_if_new : M (Unit {0})
  unfolding create_root
  create_if_new d =
      if d.init_ok && (d.info.used_block_count == 2)
      then elim (block_free_bytes os 2 d) [
        | ok free d' ↦ (if free == node_len then create_root d' else ok tt d')
        | err d' ↦ ok tt d'
        | crash ↦ crash
      ]
      else ok tt d

  -- `_open`; `found` and `errno` are what `exists` sees.
  unfoldable pub open_in : Bytes → ℕ → Bool → Bool → ℕ → M (Unit {0})
  unfolding exists create_if_new
  open_in dbname file_id create found errno = elim (exists found errno) [
    | negsuc n ↦ fail
    | pos n ↦
        if n == 1
        then open_file os >> create_if_new
        else if create
        then create_file os dbname file_id >> create_if_new
        else fail
  ]

  -- `open_index`
  unfoldable pub open_index : Bool → Bool → ℕ → KvIndex → Answer (Unit {0})
  unfolding open_in
  open_index create found errno x =
      on_file (open_in x.dbname x.file_id create found errno >> flush_blocks os) x

  -- `_get`, `_set` and `_del`
  unfoldable pub get_in : Bytes → M (Option Bytes)
  get_in key d =
      (do
        root ← get_root os fresh
        (id, idx) ← find_key os fresh (tree_fuel d) root key
        if id == 0 then pure none else read_row os id idx)
        d

  unfoldable pub set_in : Bytes → Bytes → M (Unit {0})
  set_in key value d =
      (do root ← get_root os fresh; set_key os fresh (tree_fuel d) root key value) d

  unfoldable pub del_in : Bytes → M (Unit {0})
  del_in key = do root ← get_root os fresh; del_key os fresh root key

  abbrev pub with_file : {A : Type 0} → M A → M A
  with_file m = do a ← m; flush_blocks os; pure a

  -- `get`: a value of length 0 in the cache counts as none.
  unfoldable pub get_value : Bytes → KvIndex → Answer (Option Bytes)
  unfolding get_in
  get_value k x = elim (get k x.lru) [
    | none ↦ undefined_call
    | some (v, lru) ↦
        let y = record x { lru = lru } in
        elim v [
          | none ↦ on_file (with_file (get_in k)) y
          | some v' ↦
              (if length v' == 0 then on_file (with_file (get_in k)) y else answer (some v') y)
        ]
  ]

  -- `set`: the result of the cache is not looked at.
  unfoldable pub set_value : (ℕ → Bytes) → Bytes → Bytes → KvIndex → Answer (Unit {0})
  unfolding set_in
  set_value fresh_bytes k v x = elim (on_file (with_file (set_in k v)) x) [
    | answer a y ↦ elim (set_cache fresh_bytes k v y.lru) [
      | none ↦ undefined_call
      | some lru ↦ answer tt (record y { lru = lru })
    ]
    | minus_one y ↦ minus_one y
    | undefined_call ↦ undefined_call
  ]

  -- `del`: the cache is not touched.
  unfoldable pub del_value : Bytes → KvIndex → Answer (Unit {0})
  unfolding del_in
  del_value k = on_file (with_file (del_in k))
