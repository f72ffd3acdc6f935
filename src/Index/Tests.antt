-- ===== src/Index/Tests.antt =====
-- A node with one record, the key "b", and what is found in it; a file with an empty root.
use pingkv.Base.{
  ℕ, ◌≡◌, refl, ap, sym, Bool, true, false, none, some, List, [], ◌∷◌, ◌||◌, codes, ◌==◌,
  if◌then◌else◌, arith, Bool-cases, inl, inr,
}
use pingkv.Base.Memory.{Memory, slice, blit}
use pingkv.DataFile.{
  RecordIndex, DataBlock, DataFile, Os, ok, row_deleted, row_migrated, row_chained,
}
use pingkv.DataFile.Block.{last_offset, free_bytes, format_block}
use pingkv.DataFile.Row.{row_get_record, row_get_len_in_block}
use pingkv.DataFile.Growth.{Part}
use pingkv.DataFile.Stored.{last, with_cache}
use pingkv.DataFile.Valid.{IsValid, Works}
use pingkv.Index.{get_int, put_int, KInfo, get_info_at, put_info_at, key_at}
use pingkv.DataFile.File.{closed}
use pingkv.Index.Create.{open_in-IsIndex}
use pingkv.Index.Keys.{set_in, get_in, del_in, open_in}
use pingkv.Index.Node.{cmp_key, inside, hit, scan}
use pingkv.Index.Search.{Found, scan-Found}
use pingkv.Index.Values.{Entry, IsIndex}
use pingkv.Index.Lookup.{same_key, lookup, get_in-set_in}
use pingkv.Index.Map.{set_in-IsIndex}
use pingkv.Index.Delete.{deleted, get_in-del_in}
use pingkv.Index.Root.{HasRoot}

abbrev b_info : KInfo
b_info = record { left_child_block_id = 0; block_id = 5; row_idx = 1; key_len = 1 }

-- The head has the number 2 and the count 1.
abbrev one_record : Memory
one_record = blit (put_info_at (put_int 2 (put_int 4 (λ _. 0) 0 2) 4 1) 16 b_info) 28 (codes "b")

one_record-scan : scan 1 one_record (codes "b") 16 none ≡ some (hit 16)
unfolding put_info_at put_int blit scan get_info_at get_int inside key_at slice cmp_key
one_record-scan = refl

scan-Found_example : Found 1 one_record 16 (codes "b") (hit 16)
scan-Found_example = scan-Found 1 one_record (codes "b") 16 none (hit 16) one_record-scan

-- System calls that succeed.
abbrev os : Os
os = record {
  open_file = true;
  mmap = λ _. true;
  write_block = λ _. true;
  msync = true;
  munmap = λ _. true;
  rand = λ n. n;
  freed_name = some;
  getpid = 7;
  pid_exists = λ _. false;
}

abbrev works : Works os
works = record { maps = λ id. refl; extends = λ id. refl }

abbrev memory : Memory
memory i = 0

-- A file whose root is empty: its row fills block 2.
abbrev root_index : RecordIndex
root_index = record { flags = 0; offset = 16; len = 8152; next_block_id = 0; next_row_idx = 0 }

abbrev root_block : DataBlock
root_block = record {
  head_checksum = 2;
  block_id = 2;
  records = root_index ∷ [];
  area = λ i. if i == 16 then 2 else 0;
  tail_checksum = 2;
}

abbrev index_file : DataFile
index_file = record {
  info = record {
    curr_pid = 7;
    file_id = 1;
    db_name = codes "testdb";
    block_size = 8192;
    block_count = 3;
    used_block_count = 2;
  };
  blocks =
      λ id. if id == 2 then some root_block else if id == 3 then some (format_block os 3) else none;
  cache = [];
  init_ok = true;
}

index_file-IsValid : IsValid index_file
unfolding last_offset format_block
index_file-IsValid = record {
  used_low = omega arith;
  used_high = omega arith;
  small = omega arith;
  known = λ id lo hi. elim (Bool-cases (id == 2)) [
    | inl two ↦ (
      root_block,
      rw two refl,
      record { descending = (omega arith, tt); apart = omega arith },
      ground arith,
    )
    | inr other ↦
        let three : (id == 3) ≡ true = ground arith in
        (
          format_block os 3,
          rw (other, three) refl,
          record { descending = tt; apart = omega arith },
          ground arith,
        )
  ];
  fresh = λ id b lt e. elim (Bool-cases (id == 3)) [
    | inl three ↦
        let other : (id == 2) ≡ false = ground arith in
        let this : some (format_block os 3) ≡ some b = rw (other, three) at e in
        let same : format_block os 3 ≡ b = cc in ap (λ x. x.records) (sym same)
    | inr fourth ↦
        let other : (id == 2) ≡ false = ground arith in
        let gone : none ≡ some b = rw (other, fourth) at e in absurd (cc)
  ];
  beyond = λ id lt. ground arith;
}

index_file-IsIndex : IsIndex index_file []
unfolding row_get_record free_bytes last_offset row_deleted row_migrated row_chained get_int slice
    blit
index_file-IsIndex = record {
  valid = index_file-IsValid;
  root = record {
    block = root_block;
    index = root_index;
    here = refl;
    got = refl;
    full = refl;
    low = omega arith;
    len = refl;
    live = refl;
    unmoved = refl;
    single = refl;
    number = refl;
    node = record { count_ok = refl; holds = tt };
  };
  values = tt;
}

set_in-IsIndex_example :
    (i : KInfo) × (d' : DataFile) × (set_in os memory (codes "key") (codes "value") index_file
      ≡ ok tt d')
    × IsIndex d' (record { info = i; key = codes "key"; value = codes "value" } ∷ [])
set_in-IsIndex_example =
    set_in-IsIndex os memory works index_file [] (codes "key") (codes "value") index_file-IsIndex tt
      (omega arith) (omega arith)

-- A file whose root has the key "a", with the value "x" in block 3.
abbrev a_block : DataBlock
a_block = record root_block {
  area = λ i.
      if i == 16
      then 2
      else if i == 36
      then 3
      else if i == 44
      then 97
      else if (i == 20) || ((i == 40) || (i == 42))
      then 1
      else 0;
}

abbrev x_index : RecordIndex
x_index = record { flags = 0; offset = 8167; len = 1; next_block_id = 0; next_row_idx = 0 }

abbrev x_block : DataBlock
x_block = record {
  head_checksum = 3;
  block_id = 3;
  records = x_index ∷ [];
  area = λ i. 120;
  tail_checksum = 3;
}

abbrev a_file : DataFile
a_file = record index_file {
  info = record (index_file.info) { used_block_count = 3 };
  blocks = λ id. if id == 2 then some a_block else if id == 3 then some x_block else none;
}

a_file-IsValid : IsValid a_file
unfolding last_offset
a_file-IsValid = record {
  used_low = omega arith;
  used_high = omega arith;
  small = omega arith;
  known = λ id lo hi. elim (Bool-cases (id == 2)) [
    | inl two ↦ (
      a_block,
      rw two refl,
      record { descending = (omega arith, tt); apart = omega arith },
      ground arith,
    )
    | inr other ↦
        let three : (id == 3) ≡ true = ground arith in
        (
          x_block,
          rw (other, three) refl,
          record { descending = (omega arith, tt); apart = omega arith },
          ground arith,
        )
  ];
  fresh = λ id b lt e.
      let two : (id == 2) ≡ false = ground arith in
      let three : (id == 3) ≡ false = ground arith in
      let gone : none ≡ some b = rw (two, three) at e in absurd (cc);
  beyond = λ id lt. ground arith;
}

abbrev a_entry : Entry
a_entry = record {
  info = record { left_child_block_id = 0; block_id = 3; row_idx = 1; key_len = 1 };
  key = codes "a";
  value = codes "x";
}

x_Part : Part x_block 1 x_index (codes "x")
unfolding row_get_record row_get_len_in_block last_offset slice
x_Part = record { got = refl; len_in_block = refl; low = omega arith; bytes = refl }

a_file-IsIndex : IsIndex a_file (a_entry ∷ [])
unfolding row_get_record free_bytes last_offset row_deleted row_migrated row_chained get_int
    get_info_at slice blit
a_file-IsIndex = record {
  valid = a_file-IsValid;
  root = record {
    block = a_block;
    index = root_index;
    here = refl;
    got = refl;
    full = refl;
    low = omega arith;
    len = refl;
    live = refl;
    unmoved = refl;
    single = refl;
    number = refl;
    node = record { count_ok = refl; holds = (refl, refl, refl, omega arith, tt) };
  };
  values = (
    (
      omega arith,
      refl,
      record { left_ok = refl; block_ok = refl; row_ok = refl; len_ok = refl },
      record {
        block = x_block;
        index = x_index;
        here = refl;
        got = refl;
        low = omega arith;
        len = refl;
        live = refl;
        unmoved = refl;
        parts = last refl x_Part;
        whole = λ h. refl;
      },
    ),
    tt,
  );
}

get_in-set_in_example :
    (d' : DataFile) × (set_in os memory (codes "b") (codes "value") a_file ≡ ok tt d')
    × ((c : List (ℕ × Bool)) × (get_in os memory (codes "a") d'
          ≡ ok
              (if same_key (codes "b") (codes "a")
                then some (codes "value")
                else lookup (codes "a") (a_entry ∷ []))
              (with_cache d' c)))
unfolding cmp_key
get_in-set_in_example =
    get_in-set_in os memory works a_file (a_entry ∷ []) (codes "b") (codes "value") (codes "a")
      a_file-IsIndex (refl, tt) (omega arith) (omega arith) (omega arith) (omega arith)

open_in-IsIndex_example :
    (d : DataFile) × (open_in os memory (codes "testdb") 1 true false 2 closed ≡ ok tt d)
    × IsIndex d []
open_in-IsIndex_example =
    open_in-IsIndex os memory works (codes "testdb") (codes "testdb") 1 refl refl refl

get_in-del_in_example :
    (d' : DataFile) × (del_in os memory (codes "a") a_file ≡ ok tt d')
    × HasRoot d' ((deleted (a_entry.info), codes "a") ∷ [])
    × ((c : List (ℕ × Bool)) × (get_in os memory (codes "a") d' ≡ ok none (with_cache d' c)))
get_in-del_in_example = get_in-del_in os memory works a_file [] [] a_entry a_file-IsIndex tt
