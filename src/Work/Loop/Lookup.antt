-- ===== src/Work/Loop/Lookup.antt =====
-- kv_sender.cc: which message a connection has after a round of `thread_func`.
use pingkv.Base.{
  ℕ, ◌≡◌, ◌≢◌, ◌∙◌, sym, refl, false, Option, none, some, List, [], ◌∷◌, ◌==◌, arith, Bool-cases,
  inl, inr,
}
use pingkv.Work.{Work, Sent, Sending, kept, gone, failed, do_send, get_work}
use pingkv.Work.Loop.{
  Bufs, put_buf, find_buf, Swept, swept, closed, dangling, in_front, sweep, Sender, turned,
  take_result, next_result, turn,
}

find_buf-put_buf : (fd : ℕ) (w : Work) (b : Bufs) → find_buf fd (put_buf fd w b) ≡ some w
unfolding find_buf put_buf
find_buf-put_buf fd w [] = ground arith
find_buf-put_buf fd w ((g, u) ∷ b) = ground (arith, find_buf-put_buf fd w b)

find_buf-put_buf_other :
    (fd g : ℕ) (w : Work) (b : Bufs) → g ≢ fd → find_buf g (put_buf fd w b) ≡ find_buf g b
unfolding find_buf put_buf
find_buf-put_buf_other fd g w [] h = ground arith
find_buf-put_buf_other fd g w ((k, u) ∷ b) h = ground (arith, find_buf-put_buf_other fd g w b h)

-- What the loop keeps of the message of a connection.
unfoldable pub after_send : (ℕ → Work → Sent) → ℕ → Option Work → Option Work
unfolding do_send
after_send send fd none = none
after_send send fd (some w) = elim (do_send w (send fd w)) [
  | kept w₁ ↦ some w₁
  | gone ↦ none
  | failed ↦ none
]

in_front-swept :
    (e : ℕ × Work) (r : Swept) (b : Bufs)
    → in_front e r ≡ swept b
    → (b₁ : Bufs) × (r ≡ swept b₁) × (e ∷ b₁ ≡ b)
unfolding in_front
in_front-swept e (swept b₁) b h = (b₁, refl, cc)
in_front-swept e (closed fd b₁) b h = absurd (cc)
in_front-swept e (dangling fd b₁) b h = absurd (cc)

find_buf_front : (fd g : ℕ) (w : Work) (b : Bufs) → fd ≡ g → find_buf fd ((g, w) ∷ b) ≡ some w
unfolding find_buf
find_buf_front fd g w b e = ground arith

find_buf_behind :
    (fd g : ℕ) (w : Work) (b : Bufs) → fd == g ≡ false → find_buf fd ((g, w) ∷ b) ≡ find_buf fd b
unfolding find_buf
find_buf_behind fd g w b e = rw (find_buf, e) refl

module _ (send : ℕ → Work → Sent) (fd : ℕ) where
  after_send-kept :
      (w w₁ : Work) → do_send w (send fd w) ≡ kept w₁ → after_send send fd (some w) ≡ some w₁
  unfolding after_send
  after_send-kept w w₁ e = rw (after_send, e) refl

  find_kept :
      (g : ℕ) (w w₁ : Work) (b b₁ : Bufs)
      → do_send w (send g w) ≡ kept w₁
      → find_buf fd b₁ ≡ after_send send fd (find_buf fd b)
      → find_buf fd ((g, w₁) ∷ b₁) ≡ after_send send fd (find_buf fd ((g, w) ∷ b))
  find_kept g w w₁ b b₁ e rest = elim (Bool-cases (fd == g)) [
    | inl same ↦
        let at_g : fd ≡ g = ground arith in
        rw (find_buf_front fd g w b at_g, find_buf_front fd g w₁ b₁ at_g)
          (sym (after_send-kept w w₁ (rw at_g e)))
    | inr other ↦ rw (find_buf_behind fd g w b other, find_buf_behind fd g w₁ b₁ other) rest
  ]

  find_cases :
      (g : ℕ) (w : Work) (b b₁ : Bufs) (r : Sending)
      → do_send w (send g w) ≡ r
      → sweep send ((g, w) ∷ b) ≡ swept b₁
      → ((b₂ : Bufs)
          → sweep send b ≡ swept b₂
          → find_buf fd b₂ ≡ after_send send fd (find_buf fd b))
      → find_buf fd b₁ ≡ after_send send fd (find_buf fd ((g, w) ∷ b))
  unfolding sweep
  find_cases g w b b₁ (kept w₁) e h rest =
      let on : in_front (g, w₁) (sweep send b) ≡ swept b₁ = rw (sweep, e) at h in
      let (b₂, s, same) = in_front-swept (g, w₁) (sweep send b) b₁ on in
      rw (← same) (find_kept g w w₁ b b₂ e (rest b₂ s))
  find_cases g w b b₁ gone e h rest =
      let stop : dangling g b ≡ swept b₁ = rw (sweep, e) at h in absurd (cc)
  find_cases g w b b₁ failed e h rest =
      let stop : closed g b ≡ swept b₁ = rw (sweep, e) at h in absurd (cc)

  find_buf-sweep :
      (b b₁ : Bufs) → sweep send b ≡ swept b₁ → find_buf fd b₁ ≡ after_send send fd (find_buf fd b)
  unfolding sweep find_buf after_send
  find_buf-sweep [] b₁ h = let e : [] ≡ b₁ = cc in rw (← e) refl
  find_buf-sweep ((g, w) ∷ b) b₁ h =
      find_cases g w b b₁ (do_send w (send g w)) refl h (find_buf-sweep b)

-- When the round ends no connection and no message, and the first message of the queue is for the
-- connection `fd`: that message is the one of `fd` after it, whatever was left of another, and another
-- connection `g` has what `_do_send` keeps of its message.
pub find_buf-turn :
    (send : ℕ → Work → Sent) (b b₁ : Bufs) (fd g : ℕ) (w : Work) (q : List (ℕ × Work))
    → sweep send b ≡ swept b₁
    → g ≢ fd
    → (s : Sender) × (turn send (record { res_bufs = b; res_queue = (fd, w) ∷ q }) ≡ turned s)
      × (find_buf fd s.res_bufs ≡ some w)
      × (find_buf g s.res_bufs ≡ after_send send g (find_buf g b))
      × (s.res_queue ≡ q)
unfolding turn next_result take_result get_work
find_buf-turn send b b₁ fd g w q h other = (
  record { res_bufs = put_buf fd w b₁; res_queue = q },
  rw (turn, h) refl,
  find_buf-put_buf fd w b₁,
  find_buf-put_buf_other fd g w b₁ other ∙ find_buf-sweep send g b b₁ h,
  refl,
)
