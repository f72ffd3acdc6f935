-- ===== src/Server/Connections/Serving.antt =====
-- pingkv/src/server/kv_server.cc: events on the connections of a server.
use pingkv.Base.{
  ℕ, ◌<◌, ◌≡◌, ◌≢◌, inl, inr, refl, Bool, true, false, Option, some, List, lt→ltb, ◌==◌, arith,
  Bool-cases,
}
use pingkv.Poller.{PollerArg, put_arg, read_arg, regist, unregist}
use pingkv.Server.Connections.{Server, Answers, put, close_conn, new_work_buf, cb_accept, is_listen}
use pingkv.Work.{Work, new_work}

-- Every registered descriptor is registered for reading, and the open ones but the listening socket
-- have an empty buffer.
pub record IsServing (s : Server) : Type 0 where
  pub args : (fd : ℕ) (a : PollerArg) → s.poller fd ≡ some a → a ≡ read_arg fd
  pub bufs :
      (fd : ℕ) (a : PollerArg)
      → s.open_fds fd ≡ true
      → s.poller fd ≡ some a
      → is_listen s.listen_sock fd ≡ false
      → s.work_bufs fd ≡ some (some new_work)

-- The invariant but for the connection `fd`.
pub record IsServingBut (fd : ℕ) (s : Server) : Type 0 where
  pub args : (g : ℕ) (a : PollerArg) → s.poller g ≡ some a → a ≡ read_arg g
  pub bufs :
      (g : ℕ) (a : PollerArg)
      → g ≢ fd
      → s.open_fds g ≡ true
      → s.poller g ≡ some a
      → is_listen s.listen_sock g ≡ false
      → s.work_bufs g ≡ some (some new_work)

pub put_here : {A : Type 0} (f : ℕ → A) (k : ℕ) (x : A) → put f k x k ≡ x
put_here f k x = ground arith

pub put_there : {A : Type 0} (f : ℕ → A) (k g : ℕ) (x : A) → g ≢ k → put f k x g ≡ f g
put_there f k g x h = ground arith

-- A connection that is closed; `epoll_ctl` does not delete a descriptor that is closed.
pub close_conn-IsServing :
    (del_ok : Bool) (fd : ℕ) (s : Server) (a : PollerArg)
    → del_ok ≡ false
    → IsServingBut fd s
    → s.poller fd ≡ some a
    → (t : Server) × (close_conn del_ok fd s ≡ some t) × IsServing t
unfolding close_conn unregist
close_conn-IsServing del_ok fd s a refused v there = (
  record s { open_fds = put s.open_fds fd false },
  rw (close_conn, unregist, there, refused) refl,
  record {
    args = v.args;
    bufs = λ g b o e l. elim (Bool-cases (g == fd)) [
      | inl same ↦ let shut : false ≡ true = rw same at o in absurd (cc)
      | inr other ↦ v.bufs g b (ground (arith, other)) (rw other at o) e l
    ];
  },
)

registered-But :
    (cfd : ℕ) (s : Server)
    → IsServing s
    → IsServingBut cfd (record s {
      poller = put_arg s.poller cfd (some (read_arg cfd));
      open_fds = put s.open_fds cfd true;
    })
registered-But cfd s v = record {
  args = λ g b e. elim (Bool-cases (g == cfd)) [
    | inl same ↦
        let this : some (read_arg cfd) ≡ some b = rw same at e in
        let at_cfd : g ≡ cfd = ground arith in rw at_cfd (cc)
    | inr other ↦ v.args g b (rw other at e)
  ];
  bufs = λ g b h o e l.
      let other : (g == cfd) ≡ false = ground (arith, h) in
      v.bufs g b (rw other at o) (rw other at e) l;
}

-- A descriptor with an empty buffer.
pub filled-IsServing :
    (fd : ℕ) (s : Server) → IsServingBut fd s → s.work_bufs fd ≡ some (some new_work) → IsServing s
filled-IsServing fd s v here = record {
  args = v.args;
  bufs = λ g b o e l. elim (Bool-cases (g == fd)) [
    | inl same ↦ let at_fd : g ≡ fd = ground arith in rw at_fd here
    | inr other ↦ v.bufs g b (ground (arith, other)) o e l
  ];
}

-- Other buffers of the connection `fd`.
pub other_bufs-But :
    (fd : ℕ) (s : Server) (x : Option (Option Work)) (qs : List (List (ℕ × Work)))
    → IsServingBut fd s
    → IsServingBut fd (record s { work_bufs = put s.work_bufs fd x; req_queue = qs })
other_bufs-But fd s x qs v = record {
  args = v.args;
  bufs = λ g b h o e l.
      let other : (g == fd) ≡ false = ground (arith, h) in rw other (v.bufs g b h o e l);
}

pub cb_accept-IsServing :
    (fd cfd : ℕ) (a : Answers) (s : Server)
    → 0 < fd
    → a.accepted ≡ some cfd
    → a.del_ok ≡ false
    → IsServing s
    → (t : Server) × (cb_accept fd a s ≡ some t) × IsServing t
unfolding cb_accept regist
cb_accept-IsServing fd cfd a s some_fd acc del v =
    let s₁ = record s {
      poller = put_arg s.poller cfd (some (read_arg cfd));
      open_fds = put s.open_fds cfd true;
    } in
    let v₁ = registered-But cfd s v in
    elim (Bool-cases a.add_ok) [
      | inl ok ↦ (
        new_work_buf cfd s₁,
        rw (cb_accept, acc, ok) refl,
        filled-IsServing cfd (new_work_buf cfd s₁)
            (other_bufs-But cfd s₁ (some (some new_work)) s.req_queue v₁)
            (put_here s.work_bufs cfd (some (some new_work))),
      )
      | inr refused ↦
          let (t, run, w) =
            close_conn-IsServing a.del_ok cfd s₁ (read_arg cfd) del v₁ (ground arith) in
          let lt = lt→ltb 0 fd some_fd in (t, rw (cb_accept, acc, refused, lt) run, w)
    ]
