-- ===== src/Tests/LifecycleTests.antt =====
-- Starting and stopping with one descriptor to give away.
use gear_mcp_server.Base.{
  ℕ, ◌≡◌, refl, arith, Bool, true, false, not, ◌&&◌, ◌||◌, ◌==◌, Option, none, some, if◌then◌else◌,
}
use gear_mcp_server.Lifecycle.{
  Sockets, failed, TcpServer, McpServer, start, stop, accept_round, mcp_start, mcp_stop,
}
use gear_mcp_server.Lifecycle.Running.{Agrees, here, next, starts, stops, accepts, Reach-Agrees}
use gear_mcp_server.Lifecycle.Descriptors.{stop-start}

-- The world tells whether descriptor 3 is open.
abbrev open_one : Bool → Option ℕ × Bool
open_one true = (none, true)
open_one false = (some 3, true)

open_one-fresh : (w w' : Bool) (fd : ℕ) → open_one w ≡ (some fd, w') → ((fd == 3) && w) ≡ false
open_one-fresh true w' fd h = cc
open_one-fresh false w' fd h = ground arith

open_one-opened :
    (w w' : Bool) (fd j : ℕ)
    → open_one w ≡ (some fd, w')
    → ((j == 3) && w') ≡ (j == fd || ((j == 3) && w))
open_one-opened true w' fd j h = cc
open_one-opened false w' fd j h =
    let given : 3 ≡ fd = cc in let left : true ≡ w' = cc in ground (arith, given, left)

open_one-failed :
    (w w' : Bool) (j : ℕ) → open_one w ≡ (none, w') → ((j == 3) && w') ≡ ((j == 3) && w)
open_one-failed true w' j h = let same : true ≡ w' = cc in ground (arith, same)
open_one-failed false w' j h = cc

close_one :
    (fd j : ℕ) (w : Bool)
    → ((j == 3) && (if fd == 3 then false else w)) ≡ (not (j == fd) && ((j == 3) && w))
close_one fd j w = ground arith

abbrev one_socket : Bool → Sockets Bool
one_socket binds = record {
  socket = open_one;
  bind = λ fd port w. (binds, w);
  listen = λ fd w. (true, w);
  accept = λ fd w. (failed, w);
  spawn = λ w. (true, w);
  close = λ fd w. if fd == 3 then false else w;
  opened = λ w j. (j == 3) && w;
  socket-fresh = open_one-fresh;
  socket-opened = open_one-opened;
  socket-failed = open_one-failed;
  bind-opened = λ fd port j w. refl;
  listen-opened = λ fd j w. refl;
  spawn-opened = λ j w. refl;
  close-opened = close_one;
}

abbrev new_tcp : TcpServer Bool
new_tcp = record {
  running = false;
  port = 8510;
  listen_fd = none;
  connected_clients = 0;
  world = false;
}

abbrev new_mcp : McpServer Bool
new_mcp = record { is_running = false; tcp_server = new_tcp }

stop-start_example :
    (one_socket true).opened
      (stop (one_socket true) (start (one_socket true) 8510 new_tcp).1).world
      3
    ≡ (one_socket true).opened new_tcp.world 3
stop-start_example = stop-start (one_socket true) 8510 new_tcp 3 refl refl

abbrev after_all : McpServer Bool
after_all =
    let m = (mcp_start (one_socket true) new_mcp).1 in
    mcp_stop (one_socket true)
      (record m { tcp_server = (accept_round (one_socket true) m.tcp_server).1 })

Reach-Agrees_example : Agrees (one_socket true) after_all
Reach-Agrees_example =
    Reach-Agrees (one_socket true) (next (next (next (here new_mcp) starts) accepts) stops)
      (record { listens = refl; together = refl })
