-- ===== src/Server/Files.antt =====
-- The constructor of `kv_server` (pingkv/src/server/kv_server.cc): which data files the server with
-- a given number opens. The configuration admits no count of files or of servers below 1.
use pingkv.Base.{
  ℕ, zero, suc, ◌+◌, ◌-◌, ◌*◌, ◌/◌, ◌≤◌, ◌<◌, ◌≡◌, Bool, true, false, ◌&&◌, List, [], ◌∷◌, arith,
  leb, ltb, ◌==◌, if◌then◌else◌, Bool-cases, inl, inr, ltb→lt, ==→eq, ◌∙◌,
}
use native.Mathlib.Nat.{le-div_iff_mul-le, div-lt_iff_lt-mul, div-mul-le_self}
use pingkv.Base.Int.{ℤ, pos, sub_ℕ, rounds}

-- `while (_local_file_count * server_count < file_count) _local_file_count++;`, on fuel.
unfoldable pub grow_count : ℕ → ℕ → ℕ → ℕ → ℕ
grow_count zero server_count file_count local = local
grow_count (suc fuel) server_count file_count local =
    let more = grow_count fuel server_count file_count (local + 1) in
    if ltb (local * server_count) file_count then more else local

-- The files of a server but the last; one round of the loop is enough, see `per_server-covers`.
unfoldable pub per_server : ℕ → ℕ → ℕ
unfolding grow_count
per_server server_count file_count =
    grow_count file_count server_count file_count (file_count / server_count)

pub record Share : Type 0 where
  pub fileno_low : ℕ
  pub local_file_count : ℤ

unfoldable pub share : ℕ → ℕ → ℕ → Share
share server_count file_count server_id =
    let local = per_server server_count file_count in
    record {
      fileno_low = server_id * local;
      local_file_count =
          if server_id + 1 == server_count
          then sub_ℕ local (local * server_count - file_count)
          else pos local;
    }

-- The loop of the constructor makes a worker for each of these files.
files_from : ℕ → ℕ → List ℕ
files_from low zero = []
files_from low (suc n) = low ∷ files_from (low + 1) n

unfoldable pub opened : ℕ → ℕ → ℕ → List ℕ
unfolding files_from
opened server_count file_count server_id =
    let s = share server_count file_count server_id in
    files_from s.fileno_low (rounds s.local_file_count)

abbrev pub has : ℕ → List ℕ → Bool
has a [] = false
has a (x ∷ xs) = if a == x then true else has a xs

has-files_from : (a low n : ℕ) → has a (files_from low n) ≡ (leb low a && ltb a (low + n))
unfolding files_from
has-files_from a low zero = ground arith
has-files_from a low (suc n) = ground (arith, has-files_from a (low + 1) n)

grow_count-enough : (fuel s f l : ℕ) → f ≤ (l + fuel) * s → f ≤ grow_count fuel s f l * s
unfolding grow_count
grow_count-enough zero s f l k = omega arith
grow_count-enough (suc fuel) s f l k =
    let next : f ≤ (l + 1 + fuel) * s = omega arith in
    ground (arith, grow_count-enough fuel s f (l + 1) next)

grow_count-tight : (fuel s f l : ℕ) → 0 < s → l * s < f + s → grow_count fuel s f l * s < f + s
unfolding grow_count
grow_count-tight zero s f l h k = k
grow_count-tight (suc fuel) s f l h k = elim (Bool-cases (ltb (l * s) f)) [
  | inl more ↦
      let lt : l * s < f = ltb→lt _ _ more in
      rw more (grow_count-tight fuel s f (l + 1) h (omega arith))
  | inr done ↦ rw done k
]

-- For at least one server the constructor's loop ends with the number of files divided by the
-- number of servers, rounded up.
pub per_server_ceil : (s f : ℕ) → 0 < s → (f ≤ per_server s f * s) × (per_server s f * s < f + s)
unfolding per_server
per_server_ceil s f h =
    let low : f / s * s ≤ f = div-mul-le_self f s in
    (grow_count-enough f s f (f / s) (grind arith), grow_count-tight f s f (f / s) h (omega arith))

-- `a` is in the block with number `i` of blocks of `p`.
in_block : (a p i : ℕ) → 0 < p → (leb (i * p) a && ltb a (i * p + p)) ≡ (i == a / p)
in_block a p i h = grind (
  arith,
  le-div_iff_mul-le {k = p} {x = i} {y = a} h,
  div-lt_iff_lt-mul {k = p} {x = a} {y = suc i} h,
)

-- The two shapes of a server's block of files, over numbers.
last_block :
    (s f id a p : ℕ)
    → id + 1 ≡ s
    → id * p ≤ f
    → f ≤ p * s
    → (leb (id * p) a && ltb a (id * p + rounds (sub_ℕ p (p * s - f))))
      ≡ (ltb a f && (leb (id * p) a && ltb a (id * p + p)))
last_block s f id a p e low high =
    let e' : p * s ≡ id * p + p = rw (← e) (omega arith) in ground arith

inner_block :
    (s f id a p : ℕ)
    → id + 1 < s
    → (s - 1) * p ≤ f
    → (leb (id * p) a && ltb a (id * p + p)) ≡ (ltb a f && (leb (id * p) a && ltb a (id * p + p)))
inner_block s f id a p lt full =
    let below : (id + 1) * p ≤ (s - 1) * p = grind arith in
    let end : id * p + p ≤ f = omega arith in ground arith

-- With at least one file and all servers before the last one full, the server `id` opens exactly
-- the files `a` below `f` such that `a` divided by `per_server s f` is `id`. So every file is
-- opened by one server and by no other, and none with a number beyond the last is opened.
pub has-opened :
    (s f id a : ℕ)
    → 0 < f
    → id < s
    → (s - 1) * per_server s f ≤ f
    → has a (opened s f id) ≡ (ltb a f && (id == a / per_server s f))
unfolding opened share
has-opened s f id a some_files known full =
    let p = per_server s f in
    let (high, _) = per_server_ceil s f (omega arith) in
    let pos_p : 0 < p = grind arith in
    elim (Bool-cases (id + 1 == s)) [
      | inl last ↦
          let e : id + 1 ≡ s = ==→eq _ _ last in
          let low : id * p ≤ f = let e' : s - 1 ≡ id = omega arith in rw e' at full in
          rw (last, ← in_block a p id pos_p)
            (has-files_from a (id * p) _ ∙ last_block s f id a p e low high)
      | inr inner ↦
          let lt : id + 1 < s = ground arith in
          rw (inner, ← in_block a p id pos_p)
            (has-files_from a (id * p) p ∙ inner_block s f id a p lt full)
    ]
