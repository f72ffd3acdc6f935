-- ===== src/Index/Values.antt =====
-- kv_index.cc with data_file.cc: the keys of an index whose root holds them, with their values.
use pingkv.Base.{ℕ, ◌<◌, ◌≡◌, refl, ap, List, [], ◌∷◌, ◌++◌, Bytes}
use pingkv.DataFile.{DataBlock, DataFile, update}
use pingkv.DataFile.InPlace.{Stored-update}
use pingkv.DataFile.Stored.{Blocks, Ext, Stored, Stored-Ext}
use pingkv.DataFile.Valid.{IsValid}
use pingkv.Index.{head_size, KInfo}
use pingkv.Index.Records.{end_of}
use pingkv.Index.Fields.{IsInfo}
use pingkv.Index.Root.{HasRoot}

-- A key with its value, and where the value is.
pub record Entry : Type 0 where
  pub info : KInfo
  pub key : Bytes
  pub value : Bytes

abbrev pub records : List Entry → List (KInfo × Bytes)
records [] = []
records (e ∷ es) = (e.info, e.key) ∷ records es

pub records-append : (es fs : List Entry) → records (es ++ fs) ≡ records es ++ records fs
records-append [] fs = refl
records-append (e ∷ es) fs = ap (◌∷◌ (e.info, e.key)) (records-append es fs)

-- Each record has no child, and its value is a row behind the block of the root.
abbrev pub Values : Blocks → List Entry → Type 0
Values bs [] = Unit {0}
Values bs (e ∷ es) =
    ((2 < e.info.block_id)
      × (e.info.left_child_block_id ≡ 0)
      × IsInfo e.info
      × Stored bs e.info.block_id e.info.row_idx e.value)
    × Values bs es

pub Values-Ext : {bs cs : Blocks} → Ext bs cs → (es : List Entry) → Values bs es → Values cs es
Values-Ext x [] v = tt
Values-Ext x (e ∷ es) ((lt, leaf, fits, s), v) =
    ((lt, leaf, fits, Stored-Ext x s), Values-Ext x es v)

pub Values-update :
    (bs : Blocks) (b : DataBlock) (es : List Entry) → Values bs es → Values (update bs 2 b) es
Values-update bs b [] v = tt
Values-update bs b (e ∷ es) ((lt, leaf, fits, s), v) =
    ((lt, leaf, fits, Stored-update 2 b lt s), Values-update bs b es v)

pub Values-append :
    (bs : Blocks) (es fs : List Entry) → Values bs es → Values bs fs → Values bs (es ++ fs)
Values-append bs [] fs v w = w
Values-append bs (e ∷ es) fs (s, v) w = (s, Values-append bs es fs v w)

pub Values-at :
    {bs : Blocks} (es : List Entry) (e : Entry) (fs : List Entry)
    → Values bs (es ++ e ∷ fs)
    → (2 < e.info.block_id)
      × (e.info.left_child_block_id ≡ 0)
      × IsInfo e.info
      × Stored bs e.info.block_id e.info.row_idx e.value
Values-at [] e fs (s, v) = s
Values-at (f ∷ es) e fs (s, v) = Values-at es e fs v

-- The file is valid, its root holds the keys, and their values are rows of the file.
pub record IsIndex (d : DataFile) (es : List Entry) : Type 0 where
  pub valid : IsValid d
  pub root : HasRoot d (records es)
  pub values : Values d.blocks es

-- The bytes that the records of the keys take in the root.
abbrev pub used : List Entry → ℕ
used es = end_of head_size (records es)
