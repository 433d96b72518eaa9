-- ===== src/Lifecycle/Running.antt =====
-- When the servers run, and what they then hold.
use gear_mcp_server.Base.{
  ℕ, ◌≡◌, refl, sym, ap, ◌∙◌, Bool, true, false, Option, none, some, is_some, Bool-cases, inl, inr,
  if◌then◌else◌,
}
use gear_mcp_server.Lifecycle.{
  Sockets, Accepted, client, interrupted, failed, TcpServer, McpServer, listening, bound, created,
  create_listen_socket, spawned, accepting, start, stop, client_thread, accepted, round_at,
  accept_round, started, mcp_start, mcp_stop,
}

module _ {W : Type 0} (sockets : Sockets W) where
  -- The server of the connections runs exactly while it has a socket to listen on.
  abbrev pub Listens : TcpServer W → Type 0
  Listens s = s.running ≡ is_some s.listen_fd

  -- After the socket was made: it is there exactly if that succeeded, and the server does not run
  -- yet.
  Prepared : Bool × TcpServer W → Type 0
  Prepared r = (r.1.running ≡ false) × (is_some r.1.listen_fd ≡ r.0)

  created-Prepared :
      (r : Option ℕ × W) (s : TcpServer W)
      → s.running ≡ false
      → is_some s.listen_fd ≡ false
      → Prepared (created sockets r s)
  unfolding Prepared
  created-Prepared (none, w) s h k = (h, k)
  created-Prepared (some fd, w) s h k = by_bind (sockets.bind fd s.port w)
    where
      by_listen : (r : Bool × W) → Prepared (listening sockets fd r s)
      by_listen (false, w) = (h, k)
      by_listen (true, w) = (h, refl)

      by_bind : (r : Bool × W) → Prepared (bound sockets fd r s)
      by_bind (false, w) = (h, k)
      by_bind (true, w) = by_listen (sockets.listen fd w)

  accepting-Listens :
      (r : Bool × TcpServer W)
      → Prepared r
      → Listens (accepting sockets r).1
        × ((accepting sockets r).1.running ≡ (accepting sockets r).0)
  unfolding Prepared
  accepting-Listens (false, s) p = (p.0 ∙ sym p.1, p.0)
  accepting-Listens (true, s) p = by_spawn (sockets.spawn s.world)
    where
      by_spawn :
          (r : Bool × W)
          → Listens (spawned sockets r (record s { running = true })).1
            × ((spawned sockets r (record s { running = true })).1.running
                ≡ (spawned sockets r (record s { running = true })).0)
      by_spawn (true, w) = (sym p.1, refl)
      by_spawn (false, w) = (refl, refl)

  pub start_stopped :
      (p_port : ℕ) (s : TcpServer W)
      → s.running ≡ false
      → start sockets p_port s
        ≡ accepting sockets (create_listen_socket sockets (record s { port = p_port }))
  unfolding start
  start_stopped p_port s h =
      ap
        (λ b.
          if b
          then (false, s)
          else accepting sockets (create_listen_socket sockets (record s { port = p_port })))
        h

  pub start-Listens :
      (p_port : ℕ) (s : TcpServer W)
      → s.running ≡ false
      → Listens s
      → Listens (start sockets p_port s).1
        × ((start sockets p_port s).1.running ≡ (start sockets p_port s).0)
  unfolding start create_listen_socket
  start-Listens p_port s h l =
      let s' = record s { port = p_port } in
      let r = created sockets (sockets.socket s.world) s' in
      rw (start_stopped p_port s h)
        (accepting-Listens r (created-Prepared (sockets.socket s.world) s' h (sym l ∙ h)))

  stop-Listens :
      (s : TcpServer W) → Listens s → Listens (stop sockets s) × ((stop sockets s).running ≡ false)
  unfolding stop
  stop-Listens s l = elim (Bool-cases s.running) [
    | inl e ↦ rw e (refl, refl)
    | inr e ↦ rw e (sym e ∙ l, refl)
  ]

  Same : TcpServer W → TcpServer W → Type 0
  Same s t = (t.running ≡ s.running) × (t.listen_fd ≡ s.listen_fd)

  -- A round of the accepting thread changes neither.
  accept_round-Same : (s : TcpServer W) → Same s (accept_round sockets s).1
  unfolding accept_round Same
  accept_round-Same s = by_running s.running
    where
      by_thread :
          (fd : ℕ) (r : Bool × W) (n : ℕ)
          → Same s (client_thread sockets fd r (record s { connected_clients = n }))
      by_thread fd (true, w) n = (refl, refl)
      by_thread fd (false, w) n = (refl, refl)

      by_accept : (r : Accepted × W) → Same s (accepted sockets r s).1
      by_accept (client fd, w) = by_thread fd (sockets.spawn w) _
      by_accept (interrupted, w) = (refl, refl)
      by_accept (failed, w) = (refl, refl)

      by_fd : (o : Option ℕ) → Same s (round_at sockets o s).1
      by_fd none = (refl, refl)
      by_fd (some fd) = by_accept (sockets.accept fd s.world)

      by_running : (b : Bool) → Same s (if b then round_at sockets s.listen_fd s else (false, s)).1
      by_running true = by_fd s.listen_fd
      by_running false = (refl, refl)

  -- The two servers run at the same times, and exactly while there is a socket to listen on.
  pub record Agrees (m : McpServer W) : Type 0 where
    pub listens : Listens m.tcp_server
    pub together : m.is_running ≡ m.tcp_server.running

  -- The steps of the program with the server: a start, a stop, a round of the accepting thread.
  pub data Step (m : McpServer W) : McpServer W → Type 0 where
    starts : Step m (mcp_start sockets m).1
    stops : Step m (mcp_stop sockets m)
    accepts : Step m (record m { tcp_server = (accept_round sockets m.tcp_server).1 })

  pub data Reach : McpServer W → McpServer W → Type 0 where
    here : (m : McpServer W) → Reach m m
    next : {l m n : McpServer W} → Reach l m → Step m n → Reach l n

  mcp_start-Agrees : (m : McpServer W) → Agrees m → Agrees (mcp_start sockets m).1
  unfolding mcp_start
  mcp_start-Agrees m a = elim (Bool-cases m.is_running) [
    | inl e ↦ rw e (record { listens = a.listens; together = sym e ∙ a.together })
    | inr e ↦ rw e (
        by_start (start sockets 8510 m.tcp_server)
          (start-Listens 8510 m.tcp_server (sym a.together ∙ e) a.listens))
  ]
    where
      by_start :
          (r : Bool × TcpServer W)
          → Listens r.1 × (r.1.running ≡ r.0)
          → Agrees (started sockets r (record m { is_running = false })).1
      by_start (false, t) h = record { listens = h.0; together = sym h.1 }
      by_start (true, t) h = record { listens = h.0; together = sym h.1 }

  mcp_stop-Agrees : (m : McpServer W) → Agrees m → Agrees (mcp_stop sockets m)
  unfolding mcp_stop
  mcp_stop-Agrees m a = elim (Bool-cases m.is_running) [
    | inl e ↦
        let h = stop-Listens m.tcp_server a.listens in
        rw e (record { listens = h.0; together = sym h.1 })
    | inr e ↦ rw e (record { listens = a.listens; together = sym e ∙ a.together })
  ]

  Step-Agrees : {m n : McpServer W} → Step m n → Agrees m → Agrees n
  unfolding Same
  Step-Agrees {m} starts a = mcp_start-Agrees m a
  Step-Agrees {m} stops a = mcp_stop-Agrees m a
  Step-Agrees {m} accepts a =
      let same = accept_round-Same m.tcp_server in
      record {
        listens = same.0 ∙ a.listens ∙ ap is_some (sym same.1);
        together = a.together ∙ sym same.0;
      }

  -- After any starts, stops and rounds of the accepting thread: both servers run or neither does,
  -- and they run exactly while there is a socket to listen on.
  pub Reach-Agrees : {m n : McpServer W} → Reach m n → Agrees m → Agrees n
  Reach-Agrees (here m) a = a
  Reach-Agrees (next rs step) a = Step-Agrees step (Reach-Agrees rs a)
