-- ===== src/Poller/Events.antt =====
-- pingkv/src/tool/kv_poller.cc: the events of descriptors that are registered.
use pingkv.Base.{
  ℕ, ◌≡◌, Bool, true, false, Option, none, some, List, [], ◌∷◌, ◌++◌, ◌==◌, if◌then◌else◌, arith,
}
use mathlib.Core.Path.{subst}
use pingkv.Poller.{PollerArg, Poller, Event, Call, read_call, write_call}

-- An argument stands under its descriptor, and has the callbacks for the events that it asks for.
pub record IsArg (fd : ℕ) (a : PollerArg) : Type 0 where
  pub fd_ok : a.fd ≡ fd
  pub rcb_ok : a.epoll_in ≡ a.rcb
  pub wcb_ok : a.epoll_out ≡ a.wcb

abbrev pub IsEntry : ℕ → Option PollerArg → Type 0
IsEntry fd none = Unit {0}
IsEntry fd (some a) = IsArg fd a

abbrev pub IsValid : Poller → Type 0
IsValid p = (fd : ℕ) → IsEntry fd (p fd)

abbrev pub fds : List Event → List ℕ
fds [] = []
fds (e ∷ es) = e.fd ∷ fds es

abbrev pub is_some {ℓ} : {A : Type ℓ} → Option A → Bool
is_some none = false
is_some (some a) = true

-- The callbacks of the events, by the arguments that are registered for them.
abbrev calls_of : Bool → Bool → PollerArg → List Call
calls_of r w a = (if r then read_call a.fd ∷ [] else []) ++ (if w then write_call a.fd ∷ [] else [])

abbrev event_calls : Event → Option PollerArg → List Call
event_calls e none = []
event_calls e (some a) = if e.error then [] else calls_of a.epoll_in a.epoll_out a

abbrev pub expected_calls : List Event → Poller → List Call
expected_calls [] p = []
expected_calls (e ∷ es) p = event_calls e (p e.fd) ++ expected_calls es p

-- No event is an error whose descriptor `epoll_ctl` then deletes.
abbrev pub NoneDeleted : List Event → Type 0
NoneDeleted [] = Unit {0}
NoneDeleted (e ∷ es) = (e.error ≡ true → e.ctl_ok ≡ false) × NoneDeleted es

pub IsEntry-put_arg :
    (a : PollerArg) (p : Poller) (fd : ℕ) (b : Bool)
    → (fd == a.fd) ≡ b
    → IsArg a.fd a
    → IsEntry fd (p fd)
    → IsEntry fd (if b then some a else p fd)
IsEntry-put_arg a p fd true e i h =
    let same : a.fd ≡ fd = ground (arith, e) in subst (λ x. IsArg x a) same i
IsEntry-put_arg a p fd false e i h = h
