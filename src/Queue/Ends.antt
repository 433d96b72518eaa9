-- ===== src/Queue/Ends.antt =====
-- The loop of `process_pending` comes to an end, whatever the other threads do meanwhile.
use gear_mcp_server.Base.{
  ℕ, zero, suc, ◌+◌, ◌<◌, ◌≤◌, ◌≡◌, refl, ap, arith, Option, some, List, [], ◌∷◌, inl, inr,
  Bool-cases, Bytes, length, length-append,
}
use gear_mcp_server.Exec.{Result, ok, threw}
use gear_mcp_server.Queue.{
  Slot, Task, Queue, Move, Round, set_dispatch_available, submit, begin_invoke, begun, finished,
  finish, given_up, time_out, deliver, complete, move, moves, run_task, after_task, process_round,
  process_pending,
}

module _ {W : Type 0} where
  -- How many calls begin.
  abbrev pub begun_in : List (Move W) → ℕ
  begun_in [] = 0
  begun_in (Move.begins k p_task ∷ ms) = suc (begun_in ms)
  begun_in (Move.switches a ∷ ms) = begun_in ms
  begun_in (Move.wakes k ∷ ms) = begun_in ms
  begun_in (Move.gives_up k ∷ ms) = begun_in ms

  abbrev pub begun_among : List (Round W) → ℕ
  begun_among [] = 0
  begun_among (m ∷ ms) = begun_in m.before + begun_in m.during + begun_among ms

  finished-pending : (k : ℕ) (v : Slot) (q : Queue W) → (finished k v q).pending ≡ q.pending
  finished-pending k (Slot.done r) q = refl
  finished-pending k Slot.idle q = refl
  finished-pending k Slot.waiting q = refl
  finished-pending k (Slot.returned r) q = refl

  given_up-pending : (k : ℕ) (v : Slot) (q : Queue W) → (given_up k v q).pending ≡ q.pending
  given_up-pending k (Slot.done r) q = refl
  given_up-pending k Slot.idle q = refl
  given_up-pending k Slot.waiting q = refl
  given_up-pending k (Slot.returned r) q = refl

  begin_invoke-pending :
      (k : ℕ) (f : W → Result Bytes × W) (q : Queue W)
      → length (begin_invoke k f q).1.pending ≤ suc (length q.pending)
  unfolding begin_invoke submit
  begin_invoke-pending k f q = elim (Bool-cases q.available) [
    | inl e ↦ rw e (omega (arith, length-append q.pending (record { func = f; caller = k } ∷ [])))
    | inr e ↦ rw e (omega arith)
  ]

  begun-pending :
      (k : ℕ) (f : W → Result Bytes × W) (v : Slot) (q : Queue W)
      → length (begun k f v q).pending ≤ suc (length q.pending)
  begun-pending k f Slot.idle q = begin_invoke-pending k f q
  begun-pending k f Slot.waiting q = omega arith
  begun-pending k f (Slot.done r) q = omega arith
  begun-pending k f (Slot.returned r) q = omega arith

  -- The queue gets no longer than by the calls that begin.
  moves-pending :
      (ms : List (Move W)) (q : Queue W)
      → length (moves ms q).pending ≤ length q.pending + begun_in ms
  unfolding moves move set_dispatch_available finish time_out
  moves-pending [] q = omega arith
  moves-pending (Move.switches a ∷ ms) q = moves-pending ms (set_dispatch_available a q)
  moves-pending (Move.begins k f ∷ ms) q =
      let rest = moves-pending ms (begun k f (q.slots k) q) in
      omega (arith, rest, begun-pending k f (q.slots k) q)
  moves-pending (Move.wakes k ∷ ms) q =
      let rest = moves-pending ms (finished k (q.slots k) q) in
      omega (arith, rest, ap length (finished-pending k (q.slots k) q))
  moves-pending (Move.gives_up k ∷ ms) q =
      let rest = moves-pending ms (given_up k (q.slots k) q) in
      omega (arith, rest, ap length (given_up-pending k (q.slots k) q))

  deliver-pending :
      (k : ℕ) (v : Slot) (r : Bytes) (q : Queue W) → (deliver k v r q).pending ≡ q.pending
  deliver-pending k (Slot.done s) r q = refl
  deliver-pending k Slot.idle r q = refl
  deliver-pending k Slot.waiting r q = refl
  deliver-pending k (Slot.returned s) r q = refl

  complete-pending :
      (k : ℕ) (r : Result Bytes) (q : Queue W) → (complete k r q).1.pending ≡ q.pending
  complete-pending k (ok r) q = deliver-pending k (q.slots k) r q
  complete-pending k (threw e) q = refl

  -- The loop is over: by an exception of a task, or since the queue is empty.
  abbrev pub IsOver : Option (Result (Unit {0}) × Queue W) → Type 0
  IsOver o =
      (r : Result (Unit {0})) × (q : Queue W) × (o ≡ some (r, q)) × (r ≡ ok tt → q.pending ≡ [])

  after_task-IsOver :
      (next : Queue W → Option (Result (Unit {0}) × Queue W)) (o : Result (Unit {0}) × Queue W)
      (n : ℕ)
      → length o.1.pending < n
      → ((q : Queue W) → length q.pending < n → IsOver (next q))
      → IsOver (after_task next o)
  after_task-IsOver next (ok u, q) n h ih = ih q h
  after_task-IsOver next (threw e, q) n h ih = (threw e, q, refl, λ c. cc)

  -- A round takes a task from the queue, to which the calls are added that begin meanwhile.
  process_round-IsOver :
      (next : Queue W → Option (Result (Unit {0}) × Queue W)) (ms : List (Move W))
      (ts : List (Task W)) (q : Queue W) (n : ℕ)
      → q.pending ≡ ts
      → length ts + begun_in ms < suc n
      → ((q : Queue W) → length q.pending < n → IsOver (next q))
      → IsOver (process_round next ms ts q)
  unfolding run_task
  process_round-IsOver next ms [] q n e h ih = (ok tt, q, refl, λ c. e)
  process_round-IsOver next ms (t ∷ ts) q n e h ih =
      let (r, w) = t.func q.world in
      let q' = moves ms (record q { pending = ts; world = w }) in
      after_task-IsOver next (complete t.caller r q') n
        (rw (complete-pending t.caller r q')
          (omega (arith, h, moves-pending ms (record q { pending = ts; world = w }))))
        ih

  pub process_pending-IsOver :
      (fuel : ℕ) (rounds : List (Round W)) (q : Queue W)
      → length q.pending + begun_among rounds < fuel
      → IsOver (process_pending fuel rounds q)
  unfolding process_pending
  process_pending-IsOver zero rounds q h = absurd (omega arith)
  process_pending-IsOver (suc fuel) [] q h =
      process_round-IsOver (process_pending fuel []) [] q.pending q fuel refl h
        (λ p l. process_pending-IsOver fuel [] p (omega (arith, l)))
  process_pending-IsOver (suc fuel) (m ∷ ms) q h =
      let q' = moves m.before q in
      let grown : length q'.pending ≤ length q.pending + begun_in m.before =
        moves-pending m.before q in
      process_round-IsOver (process_pending fuel ms) m.during q'.pending q'
        (length q'.pending + begun_in m.during) refl (omega arith)
        (λ p l. process_pending-IsOver fuel ms p (omega (arith, l, h, grown)))
