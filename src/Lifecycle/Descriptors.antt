-- ===== src/Lifecycle/Descriptors.antt =====
-- The descriptors that starting and stopping open and close.
use gear_mcp_server.Base.{
  ℕ, ◌≡◌, refl, sym, ap, ◌∙◌, arith, Bool, true, false, not, ◌&&◌, ◌||◌, ◌==◌, Option, none, some,
  is_some,
}
use gear_mcp_server.Lifecycle.Running.{start_stopped, start-Listens}
use gear_mcp_server.Lifecycle.{
  Sockets, TcpServer, listening, bound, created, create_listen_socket, close_listening, spawned,
  accepting, start, stop,
}

module _ {W : Type 0} (sockets : Sockets W) where
  open sockets use {opened}

  -- A descriptor that was opened and closed again leaves nothing behind.
  close-socket :
      (w w' v : W) (fd j : ℕ)
      → sockets.socket w ≡ (some fd, w')
      → opened v j ≡ opened w' j
      → opened (sockets.close fd v) j ≡ opened w j
  close-socket w w' v fd j h same =
      sockets.close-opened fd j v
      ∙ ap (λ b. not (j == fd) && b) (same ∙ sockets.socket-opened w w' fd j h)
      ∙ fresh (j == fd) refl
    where
      fresh : (b : Bool) → (j == fd) ≡ b → (not b && (b || opened w j)) ≡ opened w j
      fresh true e =
          let at : j ≡ fd = ground arith in sym (ap (opened w) at ∙ sockets.socket-fresh w w' fd h)
      fresh false e = refl

  -- What a start does to the descriptors: with a failure nothing, with a success one is added,
  -- which is the one that the server listens on.
  abbrev Balanced : W → Bool × TcpServer W → Type 0
  Balanced w (false, s) = (j : ℕ) → opened s.world j ≡ opened w j
  Balanced w (true, s) =
      (j : ℕ) → opened (close_listening sockets s.listen_fd s.world) j ≡ opened w j

  listening-Balanced :
      (w w' : W) (fd : ℕ) (s : TcpServer W) (r : Bool × W)
      → sockets.socket w ≡ (some fd, w')
      → ((j : ℕ) → opened r.1 j ≡ opened w' j)
      → Balanced w (listening sockets fd r s)
  listening-Balanced w w' fd s (false, u) h same = λ j. close-socket w w' u fd j h (same j)
  listening-Balanced w w' fd s (true, u) h same = λ j. close-socket w w' u fd j h (same j)

  bound-Balanced :
      (w w' : W) (fd : ℕ) (s : TcpServer W) (r : Bool × W)
      → sockets.socket w ≡ (some fd, w')
      → ((j : ℕ) → opened r.1 j ≡ opened w' j)
      → Balanced w (bound sockets fd r s)
  bound-Balanced w w' fd s (false, u) h same = λ j. close-socket w w' u fd j h (same j)
  bound-Balanced w w' fd s (true, u) h same =
      listening-Balanced w w' fd s (sockets.listen fd u) h
        (λ j. sockets.listen-opened fd j u ∙ same j)

  created-Balanced :
      (w : W) (s : TcpServer W) (r : Option ℕ × W)
      → sockets.socket w ≡ r
      → Balanced w (created sockets r s)
  created-Balanced w s (none, w') h = λ j. sockets.socket-failed w w' j h
  created-Balanced w s (some fd, w') h =
      bound-Balanced w w' fd s (sockets.bind fd s.port w') h
        (λ j. sockets.bind-opened fd s.port j w')

  close_listening-opened :
      (o : Option ℕ) (u v : W) (j : ℕ)
      → opened u j ≡ opened v j
      → opened (close_listening sockets o u) j ≡ opened (close_listening sockets o v) j
  close_listening-opened none u v j h = h
  close_listening-opened (some fd) u v j h =
      sockets.close-opened fd j u
      ∙ ap (λ b. not (j == fd) && b) h
      ∙ sym (sockets.close-opened fd j v)

  spawned-Balanced :
      (w : W) (s : TcpServer W) (r : Bool × W)
      → ((j : ℕ) → opened r.1 j ≡ opened s.world j)
      → Balanced w (true, s)
      → Balanced w (spawned sockets r s)
  spawned-Balanced w s (true, u) same h =
      λ j. close_listening-opened s.listen_fd u s.world j (same j) ∙ h j
  spawned-Balanced w s (false, u) same h =
      λ j. close_listening-opened s.listen_fd u s.world j (same j) ∙ h j

  accepting-Balanced :
      (w : W) (r : Bool × TcpServer W) → Balanced w r → Balanced w (accepting sockets r)
  accepting-Balanced w (false, s) h = h
  accepting-Balanced w (true, s) h =
      spawned-Balanced w (record s { running = true }) (sockets.spawn s.world)
        (λ j. sockets.spawn-opened j s.world) h

  start-Balanced :
      (p_port : ℕ) (s : TcpServer W) → s.running ≡ false → Balanced s.world (start sockets p_port s)
  unfolding create_listen_socket
  start-Balanced p_port s h =
      let s' = record s { port = p_port } in
      let r = created sockets (sockets.socket s.world) s' in
      rw (start_stopped sockets p_port s h)
        (accepting-Balanced s.world r (created-Balanced s.world s' (sockets.socket s.world) refl))

  stop-opened :
      (s : TcpServer W) (j : ℕ)
      → s.running ≡ true
      → opened (stop sockets s).world j ≡ opened (close_listening sockets s.listen_fd s.world) j
  unfolding stop
  stop-opened s j h = rw h refl

  stop_stopped : (s : TcpServer W) → s.running ≡ false → stop sockets s ≡ s
  unfolding stop
  stop_stopped s h = rw h refl

  stop-Balanced :
      (w : W) (r : Bool × TcpServer W) (j : ℕ)
      → Balanced w r
      → r.1.running ≡ r.0
      → opened (stop sockets r.1).world j ≡ opened w j
  stop-Balanced w (false, s) j b h = ap (λ t. opened t.world j) (stop_stopped s h) ∙ b j
  stop-Balanced w (true, s) j b h = stop-opened s j h ∙ b j

  failed-Balanced :
      (w : W) (r : Bool × TcpServer W) (j : ℕ)
      → Balanced w r
      → r.0 ≡ false
      → opened r.1.world j ≡ opened w j
  failed-Balanced w (false, s) j b h = b j
  failed-Balanced w (true, s) j b h = cc

  -- Starting and stopping: whether the start succeeds or fails, and at whichever of its calls, the
  -- same descriptors are open after the stop as before the start. The server does not run before.
  pub stop-start :
      (p_port : ℕ) (s : TcpServer W) (j : ℕ)
      → s.running ≡ false
      → s.listen_fd ≡ none
      → opened (stop sockets (start sockets p_port s).1).world j ≡ opened s.world j
  stop-start p_port s j h k =
      stop-Balanced s.world (start sockets p_port s) j (start-Balanced p_port s h)
        (start-Listens sockets p_port s h (h ∙ ap is_some (sym k))).1

  -- A start that fails, at whichever of its calls, leaves the same descriptors open as before.
  pub start-failed :
      (p_port : ℕ) (s : TcpServer W) (j : ℕ)
      → s.running ≡ false
      → (start sockets p_port s).0 ≡ false
      → opened (start sockets p_port s).1.world j ≡ opened s.world j
  start-failed p_port s j h failed =
      failed-Balanced s.world (start sockets p_port s) j (start-Balanced p_port s h) failed
