-- ===== src/HashTable/Tests.antt =====
-- pingkv/src/tool/hashtable.h: a table of 128 buckets with the key 5, and the callbacks for ints.
use pingkv.Base.{
  ℕ, ◌≤◌, ◌≡◌, refl, true, false, Option, none, some, List, [], ◌∷◌, arith, ◌==◌, if◌then◌else◌,
}
use pingkv.Base.Int.{pos}
use pingkv.Base.Links.{count_step, count_nil}
use pingkv.LinkList.{Node, LinkList}
use pingkv.LinkList as LinkList
use pingkv.LinkList.Links.{Holds}
use pingkv.HashTable.{HashTable, int_compare, make_bucket_count, find, add_or_replace, del}
use pingkv.HashTable.Count.{Least, make_bucket_count-Least}
use pingkv.HashTable.Rows.{Cell, cells, Alive, Stores}
use pingkv.HashTable.Change.{put_at, put_at_all}
use pingkv.HashTable.Find.{lookup, find-lookup}
use pingkv.HashTable.Add.{Put, add_or_replace-Put}
use pingkv.HashTable.Remove.{Dropped, del-Dropped}
use pingkv.HashTable.Map.{Callbacks, IsMap, matches, find-add_or_replace, find-del}

init-Holds : {T : Type 0} → Holds {T = T} LinkList.init []
init-Holds = record {
  linked = (tt, tt);
  elems = tt;
  begin_ok = refl;
  end_ok = refl;
  size_ok = refl;
  distinct = λ q. omega (arith, count_nil q);
  below = λ q le. count_nil q;
}

abbrev int_hash : ℕ → ℕ
int_hash n = n

int-Callbacks : Callbacks int_compare int_hash
int-Callbacks = record {
  comp_self = λ a. ground arith;
  comp_comm = λ a b. ground arith;
  comp_trans = λ a b c h. ground (arith, h);
  hash_same = λ a b h. ground (arith, h);
}

abbrev five : Cell ℕ ℕ
five = record { node = 0; elem = 0; key = 5; value = 70 }

abbrev rows : ℕ → List (Cell ℕ ℕ)
rows = put_at (λ _. []) 5 (five ∷ [])

abbrev list_of_five : LinkList (Option ℕ)
list_of_five = record {
  size = 1;
  begin = some 0;
  end = some 0;
  nodes = λ q. if q == 0 then some (record { elem = some 0; prev = none; next = none }) else none;
  allocated = 1;
}

abbrev table : HashTable ℕ ℕ
table = record {
  size = pos 1;
  bucket_count = 128;
  default_value = 0;
  buckets = put_at (λ _. LinkList.init) 5 list_of_five;
  elems = λ q. if q == 0 then some (record { k = 5; v = 70 }) else none;
  allocated = 1;
}

five-Holds : Holds list_of_five (cells (five ∷ []))
five-Holds = record {
  linked = (tt, ((record { elem = some 0; prev = none; next = none }, refl, refl, refl), tt));
  elems = (refl, tt);
  begin_ok = refl;
  end_ok = refl;
  size_ok = refl;
  distinct = λ q. let a = count_step 0 q [] in let b = count_nil q in ground (arith, a, b);
  below = λ q le. let a = count_step 0 q [] in let b = count_nil q in ground (arith, a, b, le);
}

table-Stores : Stores int_hash table rows
table-Stores = record {
  power = (7, omega arith, refl);
  owner = λ q. (5, 0);
  lists =
      put_at_all (λ j l rs. Holds l (cells rs)) (λ _. LinkList.init) (λ _. []) 5 list_of_five
        (five ∷ []) five-Holds λ j _. init-Holds;
  alive =
      put_at_all (λ j _ rs. Alive table.elems (λ q. (5, 0)) 1 j rs) (λ _. tt) (λ _. []) 5 tt
        (five ∷ []) (record { holds = refl; owned = refl; old = omega arith }, tt) λ j _. tt;
}

table-IsMap : IsMap int_compare int_hash table rows
table-IsMap = record {
  stores = table-Stores;
  unique =
      put_at_all (λ j _ rs. (k : ℕ) → matches int_compare k rs ≤ 1) (λ _. tt) (λ _. []) 5 tt
        (five ∷ []) (λ k. ground arith) λ j _ k. omega arith;
}

make_bucket_count-Least_example : (c : ℕ) × (make_bucket_count 1000 ≡ some c) × Least 1000 c
make_bucket_count-Least_example = make_bucket_count-Least 1000 (omega arith)

find-lookup_example :
    find int_compare int_hash 3 5 table ≡ some (lookup int_compare int_hash table rows 5)
find-lookup_example = find-lookup int_compare int_hash table rows 5 3 table-Stores

add_or_replace-Put_example : Put int_compare int_hash 133 71 table rows none
add_or_replace-Put_example = add_or_replace-Put int_compare int_hash 133 71 table rows table-Stores

del-Dropped_example : Dropped int_compare int_hash 3 5 table rows (some five)
del-Dropped_example = del-Dropped int_compare int_hash 3 5 table rows table-Stores

find-add_or_replace_example :
    (t' : HashTable ℕ ℕ) × (rows' : ℕ → List (Cell ℕ ℕ)) × (add_or_replace int_compare int_hash 5 71
        table
      ≡ some (false, t'))
    × IsMap int_compare int_hash t' rows'
    × (find int_compare int_hash 3 5 t' ≡ some 71)
find-add_or_replace_example =
    find-add_or_replace int_compare int_hash int-Callbacks table rows table-IsMap 5 71 5 3

find-del_example :
    (t' : HashTable ℕ ℕ) × (rows' : ℕ → List (Cell ℕ ℕ)) × (del int_compare int_hash 3 5 table
      ≡ some (true, t'))
    × IsMap int_compare int_hash t' rows'
    × (find int_compare int_hash 3 5 t' ≡ some 0)
find-del_example = find-del int_compare int_hash int-Callbacks table rows table-IsMap 5 5 3
