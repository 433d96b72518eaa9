-- ===== src/Queue.antt =====
-- src/server/main_thread_queue.h and main_thread_queue.cpp: the tasks that threads hand to the
-- main thread. A call of `invoke_on_main` has a number; its locals `result` and `done_flag`, to
-- which its task points, are the call's slot. Each function is what runs under one lock, and the
-- loop of the main thread runs among the moves of the other threads. A task runs as one step.
pub mod Waits
pub mod Ends
pub mod Serves
use gear_mcp_server.Base.{
  ℕ, zero, suc, Bool, true, false, not, Option, none, some, List, [], ◌∷◌, ◌++◌, ◌==◌,
  if◌then◌else◌, Bytes, is_empty,
}
use gear_mcp_server.Exec.{Result, ok, threw}
use gear_mcp_server.Methods.ToolsCall.{timed_out}

-- The locals of a call: not yet there, `done_flag` unset, `done_flag` set, and gone since the
-- call has returned its text.
pub data Slot : Type 0 where
  idle : Slot
  waiting : Slot
  done : Bytes → Slot
  returned : Bytes → Slot

-- The function, and the call whose locals the pointers of the task point to.
pub record Task (W : Type 0) : Type 0 where
  pub func : W → Result Bytes × W
  pub caller : ℕ

-- `dangling` tells that a task was completed into locals that are gone.
pub record Queue (W : Type 0) : Type 0 where
  pub available : Bool
  pub pending : List (Task W)
  pub slots : ℕ → Slot
  pub dangling : Bool
  pub world : W

-- What another thread does under one lock: the switch of the dispatch, the beginning of a call, and
-- the two ends of its wait.
pub data Move (W : Type 0) : Type 0 where
  switches : Bool → Move W
  begins : ℕ → (W → Result Bytes × W) → Move W
  wakes : ℕ → Move W
  gives_up : ℕ → Move W

-- What the other threads do in one round of `process_pending`: before it takes the lock of the
-- queue, and while it runs the task.
pub record Round (W : Type 0) : Type 0 where
  pub before : List (Move W)
  pub during : List (Move W)

abbrev pub put : ℕ → Slot → (ℕ → Slot) → ℕ → Slot
put k v slots j = if j == k then v else slots j

module _ {W : Type 0} where
  unfoldable pub set_dispatch_available : Bool → Queue W → Queue W
  set_dispatch_available available q = record q { available = available }

  unfoldable pub has_pending : Queue W → Bool
  has_pending q = not (is_empty q.pending)

  -- The beginning of `invoke_on_main`, up to the wait, where tasks are taken.
  unfoldable pub submit : ℕ → (W → Result Bytes × W) → Queue W → Queue W
  submit k p_task q = record q {
    pending = q.pending ++ (record { func = p_task; caller = k }) ∷ [];
    slots = put k Slot.waiting q.slots;
  }

  -- The same, with the call that runs its task itself; `none` is a call that waits.
  unfoldable pub begin_invoke :
      ℕ → (W → Result Bytes × W) → Queue W → Option (Result Bytes) × Queue W
  begin_invoke k p_task q =
      if not q.available
      then (let (r, w) = p_task q.world in (some r, record q { world = w }))
      else (none, submit k p_task q)

  -- The end of the wait with `done_flag` set.
  abbrev pub finished : ℕ → Slot → Queue W → Queue W
  finished k (Slot.done r) q = record q { slots = put k (Slot.returned r) q.slots }
  finished k _ q = q

  unfoldable pub finish : ℕ → Queue W → Queue W
  finish k q = finished k (q.slots k) q

  -- The end of the wait after ten seconds.
  abbrev pub given_up : ℕ → Slot → Queue W → Queue W
  given_up k Slot.waiting q = record q { slots = put k (Slot.returned timed_out) q.slots }
  given_up k _ q = q

  unfoldable pub time_out : ℕ → Queue W → Queue W
  time_out k q = given_up k (q.slots k) q

  -- The write of the result and of the flag.
  abbrev pub deliver : ℕ → Slot → Bytes → Queue W → Queue W
  deliver k Slot.waiting r q = record q { slots = put k (Slot.done r) q.slots }
  deliver k _ r q = record q { dangling = true }

  abbrev pub complete : ℕ → Result Bytes → Queue W → Result (Unit {0}) × Queue W
  complete k (ok r) q = (ok tt, deliver k (q.slots k) r q)
  complete k (threw e) q = (threw e, q)

  -- The beginning of a call, by what its slot holds: a call that has begun does not begin again.
  abbrev pub begun : ℕ → (W → Result Bytes × W) → Slot → Queue W → Queue W
  begun k p_task Slot.idle q = (begin_invoke k p_task q).1
  begun k p_task _ q = q

  unfoldable pub move : Move W → Queue W → Queue W
  move (Move.switches available) q = set_dispatch_available available q
  move (Move.begins k p_task) q = begun k p_task (q.slots k) q
  move (Move.wakes k) q = finish k q
  move (Move.gives_up k) q = time_out k q

  unfoldable pub moves : List (Move W) → Queue W → Queue W
  moves [] q = q
  moves (m ∷ ms) q = moves ms (move m q)

  -- One round of `process_pending` with the task that it has taken from the front: the other
  -- threads do `ms` between the end of the task and the write of its result. An exception of the
  -- task leaves the loop.
  unfoldable pub run_task :
      List (Move W) → Task W → List (Task W) → Queue W → Result (Unit {0}) × Queue W
  run_task ms t ts q =
      let (r, w) = t.func q.world in
      complete t.caller r (moves ms (record q { pending = ts; world = w }))

  abbrev pub process_front : List (Task W) → Queue W → Result (Unit {0}) × Queue W
  process_front [] q = (ok tt, q)
  process_front (t ∷ ts) q = run_task [] t ts q

  unfoldable pub process_one : Queue W → Result (Unit {0}) × Queue W
  process_one q = process_front q.pending q

  abbrev pub after_task :
      (Queue W → Option (Result (Unit {0}) × Queue W))
      → Result (Unit {0}) × Queue W
      → Option (Result (Unit {0}) × Queue W)
  after_task next (ok _, q) = next q
  after_task next (threw e, q) = some (threw e, q)

  -- The body of the loop, by what is in the queue when the lock is taken; `next` is the next
  -- round.
  abbrev pub process_round :
      (Queue W → Option (Result (Unit {0}) × Queue W))
      → List (Move W)
      → List (Task W)
      → Queue W
      → Option (Result (Unit {0}) × Queue W)
  process_round next ms [] q = some (ok tt, q)
  process_round next ms (t ∷ ts) q = after_task next (run_task ms t ts q)

  -- The loop with at most `fuel` rounds, among the moves of the other threads; `none` is a loop
  -- that is not over then. In the rounds behind those of the list the other threads do nothing.
  unfoldable pub process_pending :
      ℕ → List (Round W) → Queue W → Option (Result (Unit {0}) × Queue W)
  process_pending zero rounds q = none
  process_pending (suc fuel) [] q = process_round (process_pending fuel []) [] q.pending q
  process_pending (suc fuel) (m ∷ ms) q =
      let q' = moves m.before q in process_round (process_pending fuel ms) m.during q'.pending q'
