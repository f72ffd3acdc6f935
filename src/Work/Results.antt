-- ===== src/Work/Results.antt =====
-- kv_work_queue.cc, `kv_resault_map`: a queue of results for each connection, in the order of the
-- connections. A null pointer to a queue is `none`.
use pingkv.Base.{
  ℕ, ◌≡◌, ap, ◌∙◌, Option, none, some, List, [], ◌∷◌, ◌==◌, ltb, if◌then◌else◌, arith,
}
use pingkv.Work.{Work, put_work}

abbrev pub ResultQueue : Type 0
ResultQueue = List (ℕ × Work)

abbrev pub ResaultMap : Type 0
ResaultMap = List (ℕ × Option ResultQueue)

-- The queue of a connection; none when it is null or has no entry.
unfoldable pub queue_at : ℕ → ResaultMap → Option ResultQueue
queue_at fd [] = none
queue_at fd ((g, q) ∷ r) = let rest = queue_at fd r in if fd == g then q else rest

unfoldable pub set_queue : ℕ → Option ResultQueue → ResaultMap → ResaultMap
set_queue fd q [] = (fd, q) ∷ []
set_queue fd q ((g, p) ∷ r) =
    let rest = set_queue fd q r in
    if fd == g then (fd, q) ∷ r else if ltb fd g then (fd, q) ∷ (g, p) ∷ r else (g, p) ∷ rest

unfoldable pub erase_queue : ℕ → ResaultMap → ResaultMap
erase_queue fd [] = []
erase_queue fd ((g, p) ∷ r) = let rest = erase_queue fd r in if fd == g then r else (g, p) ∷ rest

-- A new queue for a connection that has none.
unfoldable pub or_new : Option ResultQueue → ResultQueue
or_new none = []
or_new (some q) = q

abbrev pub put_resault : ℕ → Work → ResaultMap → ResaultMap
put_resault fd w r = set_queue fd (some (put_work (or_new (queue_at fd r)) fd w)) r

-- The first result of a queue, which is erased when it was the last. With no queue, or an empty one,
-- the function has no return statement, and the result is none.
unfoldable pub take_first :
    ℕ → Option ResultQueue → ResaultMap → Option ((ℕ × Option Work) × ResaultMap)
take_first fd none r = none
take_first fd (some []) r = none
take_first fd (some ((g, w) ∷ [])) r = some ((fd, some w), erase_queue fd r)
take_first fd (some ((g, w) ∷ e ∷ q)) r = some ((fd, some w), set_queue fd (some (e ∷ q)) r)

unfoldable pub get_resault : ℕ → ResaultMap → Option ((ℕ × Option Work) × ResaultMap)
get_resault fd [] = some ((0, none), [])
get_resault fd (e ∷ r) = take_first fd (queue_at fd (e ∷ r)) (e ∷ r)

-- What is put into a map is found in it.
pub queue_at-set_queue :
    (fd : ℕ) (q : Option ResultQueue) (r : ResaultMap) → queue_at fd (set_queue fd q r) ≡ q
unfolding queue_at set_queue
queue_at-set_queue fd q [] = ground arith
queue_at-set_queue fd q ((g, p) ∷ r) = let ih = queue_at-set_queue fd q r in ground (arith, ih)

get_resault-queue_at :
    (fd : ℕ) (q : ResultQueue) (r : ResaultMap)
    → queue_at fd r ≡ some q
    → get_resault fd r ≡ take_first fd (some q) r
unfolding get_resault queue_at
get_resault-queue_at fd q [] e = absurd (cc)
get_resault-queue_at fd q (x ∷ r) e = ap (λ p. take_first fd p (x ∷ r)) e

-- A result that is put for a connection without results is the next one of that connection.
pub get_resault-put_resault :
    (fd : ℕ) (w : Work) (r : ResaultMap)
    → queue_at fd r ≡ none
    → get_resault fd (put_resault fd w r) ≡ some ((fd, some w), erase_queue fd (put_resault fd w r))
unfolding take_first or_new
get_resault-put_resault fd w r e =
    let new : put_work (or_new (queue_at fd r)) fd w ≡ (fd, w) ∷ [] =
      ap (λ q. put_work (or_new q) fd w) e in
    get_resault-queue_at fd ((fd, w) ∷ []) (put_resault fd w r)
      (queue_at-set_queue fd (some (put_work (or_new (queue_at fd r)) fd w)) r ∙ ap some new)
