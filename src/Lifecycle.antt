-- ===== src/Lifecycle.antt =====
-- src/server/tcp_server.cpp and mcp_server.cpp: starting, stopping and accepting, on POSIX. A round
-- of the accepting thread runs without a start or a stop between its test and its end. The handler
-- of the messages is left out, and so is `setsockopt`, whose result is not looked at.
pub mod Descriptors
pub mod Running
use gear_mcp_server.Base.{
  ℕ, zero, suc, ◌+◌, ◌-◌, ◌%◌, ◌^◌, ◌≡◌, Bool, true, false, not, ◌&&◌, ◌||◌, ◌==◌, Option, none,
  some, if◌then◌else◌,
}

-- What `accept` returns: a descriptor, or an error that is EINTR or another one.
pub data Accepted : Type 0 where
  client : ℕ → Accepted
  interrupted : Accepted
  failed : Accepted

-- The calls of the system, which say whether they succeeded, and which descriptors are open. What
-- the documentation of the calls says of these: a new descriptor is one that was not open, only
-- `socket` and `accept` open one, and `close` closes the one it is given.
pub record Sockets (W : Type 0) : Type 0 where
  pub socket : W → Option ℕ × W
  pub bind : ℕ → ℕ → W → Bool × W
  pub listen : ℕ → W → Bool × W
  pub accept : ℕ → W → Accepted × W
  pub spawn : W → Bool × W
  pub close : ℕ → W → W
  pub opened : W → ℕ → Bool
  pub socket-fresh : (w w' : W) (fd : ℕ) → socket w ≡ (some fd, w') → opened w fd ≡ false
  pub socket-opened :
      (w w' : W) (fd j : ℕ) → socket w ≡ (some fd, w') → opened w' j ≡ (j == fd || opened w j)
  pub socket-failed : (w w' : W) (j : ℕ) → socket w ≡ (none, w') → opened w' j ≡ opened w j
  pub bind-opened : (fd port j : ℕ) (w : W) → opened (bind fd port w).1 j ≡ opened w j
  pub listen-opened : (fd j : ℕ) (w : W) → opened (listen fd w).1 j ≡ opened w j
  pub spawn-opened : (j : ℕ) (w : W) → opened (spawn w).1 j ≡ opened w j
  pub close-opened : (fd j : ℕ) (w : W) → opened (close fd w) j ≡ (not (j == fd) && opened w j)

-- m_connected_clients is kept as its bit pattern.
pub record TcpServer (W : Type 0) : Type 0 where
  pub running : Bool
  pub port : ℕ
  pub listen_fd : Option ℕ
  pub connected_clients : ℕ
  pub world : W

pub record McpServer (W : Type 0) : Type 0 where
  pub is_running : Bool
  pub tcp_server : TcpServer W

module _ {W : Type 0} (sockets : Sockets W) where
  abbrev pub listening : ℕ → Bool × W → TcpServer W → Bool × TcpServer W
  listening fd (false, w) s = (false, record s { world = sockets.close fd w })
  listening fd (true, w) s = (true, record s { listen_fd = some fd; world = w })

  abbrev pub bound : ℕ → Bool × W → TcpServer W → Bool × TcpServer W
  bound fd (false, w) s = (false, record s { world = sockets.close fd w })
  bound fd (true, w) s = listening fd (sockets.listen fd w) s

  abbrev pub created : Option ℕ × W → TcpServer W → Bool × TcpServer W
  created (none, w) s = (false, record s { world = w })
  created (some fd, w) s = bound fd (sockets.bind fd s.port w) s

  unfoldable pub create_listen_socket : TcpServer W → Bool × TcpServer W
  create_listen_socket s = created (sockets.socket s.world) s

  abbrev pub close_listening : Option ℕ → W → W
  close_listening none w = w
  close_listening (some fd) w = sockets.close fd w

  abbrev pub spawned : Bool × W → TcpServer W → Bool × TcpServer W
  spawned (true, w) s = (true, record s { world = w })
  spawned (false, w) s =
      (false, record s { running = false; listen_fd = none; world = close_listening s.listen_fd w })

  abbrev pub accepting : Bool × TcpServer W → Bool × TcpServer W
  accepting (false, s) = (false, s)
  accepting (true, s) = spawned (sockets.spawn s.world) (record s { running = true })

  unfoldable pub start : ℕ → TcpServer W → Bool × TcpServer W
  start p_port s =
      if s.running
      then (false, s)
      else accepting (create_listen_socket (record s { port = p_port }))

  unfoldable pub stop : TcpServer W → TcpServer W
  stop s = if not s.running then s else record s {
    running = false;
    listen_fd = none;
    world = close_listening s.listen_fd s.world;
  }

  abbrev pub client_thread : ℕ → Bool × W → TcpServer W → TcpServer W
  client_thread fd (true, w) s = record s { world = w }
  client_thread fd (false, w) s = record s {
    connected_clients = (s.connected_clients + (2 ^ 32 - 1)) % 2 ^ 32;
    world = sockets.close fd w;
  }

  abbrev pub accepted : Accepted × W → TcpServer W → Bool × TcpServer W
  accepted (client fd, w) s = (
    true,
    client_thread fd (sockets.spawn w)
        (record s { connected_clients = (s.connected_clients + 1) % 2 ^ 32 }),
  )
  accepted (interrupted, w) s = (s.running, record s { world = w })
  accepted (failed, w) s = (false, record s { world = w })

  abbrev pub round_at : Option ℕ → TcpServer W → Bool × TcpServer W
  round_at none s = (false, s)
  round_at (some fd) s = accepted (sockets.accept fd s.world) s

  -- One round of `_accept_thread`, and whether the loop goes on.
  unfoldable pub accept_round : TcpServer W → Bool × TcpServer W
  accept_round s = if s.running then round_at s.listen_fd s else (false, s)

  abbrev pub started : Bool × TcpServer W → McpServer W → Bool × McpServer W
  started (false, t) m = (false, record m { tcp_server = t })
  started (true, t) m = (true, record m { is_running = true; tcp_server = t })

  unfoldable pub mcp_start : McpServer W → Bool × McpServer W
  mcp_start m = if m.is_running then (true, m) else started (start 8510 m.tcp_server) m

  unfoldable pub mcp_stop : McpServer W → McpServer W
  mcp_stop m =
      if not m.is_running
      then m
      else record m { is_running = false; tcp_server = stop m.tcp_server }
