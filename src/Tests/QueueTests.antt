-- ===== src/Tests/QueueTests.antt =====
-- The queue of the main thread, at a concrete state.
use gear_mcp_server.Base.{
  ℕ, ◌+◌, ◌≡◌, refl, arith, true, false, none, some, List, [], ◌∷◌, Bytes, codes,
}
use gear_mcp_server.Exec.{Result, ok}
use gear_mcp_server.Queue.{
  Slot, Queue, Move, Round, submit, begin_invoke, move, moves, run_task, process_one,
  process_pending, finish, time_out,
}
use gear_mcp_server.Queue.Waits.{
  IsLive, initial, next, submitted, processed, woken, Reach-IsLive, time_out-dangling,
}
use gear_mcp_server.Queue.Serves.{HasText, process_pending-HasText}

abbrev tick : ℕ → Result Bytes × ℕ
tick w = (ok (codes "done"), w + 1)

abbrev quiet : Queue ℕ
quiet = record {
  available = true;
  pending = [];
  slots = λ k. Slot.idle;
  dangling = false;
  world = 0;
}

abbrev asked : Queue ℕ
asked = record {
  available = true;
  pending = (record { func = tick; caller = 3 }) ∷ [];
  slots = λ k. Slot.waiting;
  dangling = false;
  world = 0;
}

Reach-IsLive_example : IsLive (finish 3 (process_one (submit 3 tick quiet)).1)
Reach-IsLive_example =
    Reach-IsLive
      (next
        (next (next (initial quiet) (submitted 3 tick quiet refl))
          (processed (submit 3 tick quiet)))
        (woken 3 (process_one (submit 3 tick quiet)).1))
      (record { distinct = tt; waits = tt; safe = refl })

time_out-dangling_example : (process_one (time_out 3 asked)).1.dangling ≡ true
time_out-dangling_example =
    time_out-dangling (record { func = tick; caller = 3 }) [] asked refl refl refl

-- A call begins before the loop takes the lock; while its task runs, it asks and another begins.
abbrev busy_rounds : List (Round ℕ)
busy_rounds =
    record { before = Move.begins 3 tick ∷ []; during = Move.wakes 3 ∷ Move.begins 5 tick ∷ [] }
    ∷ []

abbrev IsDone : ℕ → Bytes → Type 0
IsDone k r = r ≡ codes "done"

process_pending-HasText_example :
    (q' : Queue ℕ) × (process_pending 3 busy_rounds quiet ≡ some (ok tt, q'))
    × (q'.pending ≡ [])
    × (q'.dangling ≡ false)
    × ((k : ℕ) → HasText IsDone k (q'.slots k))
process_pending-HasText_example =
    process_pending-HasText IsDone 3 busy_rounds quiet (omega arith)
      (((λ w. (codes "done", refl, refl)), tt), (tt, ((λ w. (codes "done", refl, refl)), tt)), tt)
      (record { distinct = tt; waits = tt; safe = refl; tells = tt; texts = λ k. tt })

-- Both calls have been served.
both_served : elim (process_pending 3 busy_rounds quiet) as (λ o. Type 0) [
  | none ↦ ⊥
  | some (r, q) ↦ (q.slots 3 ≡ Slot.done (codes "done")) × (q.slots 5 ≡ Slot.done (codes "done"))
]
unfolding process_pending moves move begin_invoke submit run_task finish
both_served = (refl, refl)
