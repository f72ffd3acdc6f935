-- ===== src/Poller.antt =====
-- pingkv/src/tool/kv_poller.cc: the registered descriptors, and what the loop does with the events of
-- one `epoll_wait`. What `epoll_ctl` answers is given as a value. A callback is the part of the call
-- that it is for; what it does is not part of the poller. The lock is left out.
mod Events
mod Tests
use pingkv.Base.{ℕ, Bool, true, false, Option, none, some, List, [], ◌∷◌, ◌++◌, ◌==◌, if◌then◌else◌}
use pingkv.Base.Maybe.{◌>>=◌}

-- `poller_arg`: the events asked for and the callbacks that are set.
pub record PollerArg : Type 0 where
  pub fd : ℕ
  pub epoll_in : Bool
  pub epoll_out : Bool
  pub rcb : Bool
  pub wcb : Bool

-- `_emap`
abbrev pub Poller : Type 0
Poller = ℕ → Option PollerArg

abbrev pub put_arg : Poller → ℕ → Option PollerArg → Poller
put_arg p fd a q = if q == fd then a else p q

-- `_regist`: a descriptor that `epoll_ctl` refuses stays in the map. The number is the result, false
-- for -1.
unfoldable pub regist : Bool → PollerArg → Poller → Bool × Poller
regist ctl_ok a p = (ctl_ok, put_arg p a.fd (some a))

-- `regist_r`, `regist_w` and `regist_rw`
abbrev pub read_arg : ℕ → PollerArg
read_arg fd = record { fd = fd; epoll_in = true; epoll_out = false; rcb = true; wcb = false }

abbrev pub write_arg : ℕ → PollerArg
write_arg fd = record { fd = fd; epoll_in = false; epoll_out = true; rcb = false; wcb = true }

abbrev pub read_write_arg : ℕ → PollerArg
read_write_arg fd = record { fd = fd; epoll_in = true; epoll_out = true; rcb = true; wcb = true }

-- `_unregist`; a descriptor that is not in the map gives a null pointer, which is undefined, and so is
-- the missing return statement at the end, when `epoll_ctl` has deleted the descriptor.
unfoldable pub unregist : Bool → ℕ → Poller → Option Poller
unregist ctl_ok fd p = elim (p fd) [ none ↦ none | some a ↦ (if ctl_ok then none else some p) ]

-- An event of `epoll_wait`: the descriptor of its argument, whether `_check_epoll_err` finds an error
-- in it, and what `epoll_ctl` then answers.
pub record Event : Type 0 where
  pub fd : ℕ
  pub error : Bool
  pub ctl_ok : Bool

pub data Call : Type 0 where
  read_call write_call : ℕ → Call

-- A call of a callback that is not set throws.
abbrev pub call_if : Bool → Bool → Call → Option (List Call)
call_if false cb c = some []
call_if true false c = none
call_if true true c = some (c ∷ [])

-- The body of the loop over the events; it looks at the events that were asked for and not at those
-- that came.
unfoldable pub handle_event : Event → Poller → Option (List Call × Poller)
unfolding unregist
handle_event e p = elim (p e.fd) [
  | none ↦ none
  | some a ↦
      (if e.error then (do p₁ ← unregist e.ctl_ok a.fd p; some ([], p₁)) else do
        rs ← call_if a.epoll_in a.rcb (read_call a.fd)
        ws ← call_if a.epoll_out a.wcb (write_call a.fd)
        some (rs ++ ws, p))
]

-- The events of one `epoll_wait`.
unfoldable pub handle_events : List Event → Poller → Option (List Call × Poller)
unfolding handle_event
handle_events [] p = some ([], p)
handle_events (e ∷ es) p = do
  (cs, p₁) ← handle_event e p
  (ds, p₂) ← handle_events es p₁
  some (cs ++ ds, p₂)
