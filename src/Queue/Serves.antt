-- ===== src/Queue/Serves.antt =====
-- `process_pending` serves the calls, those that begin while it runs too.
use gear_mcp_server.Base.{
  ℕ, zero, suc, ◌+◌, ◌<◌, ◌≡◌, refl, sym, ap, ◌∙◌, arith, false, Option, some, List, [], ◌∷◌, ◌++◌,
  append_assoc, ◌==◌, ◌⊎◌, inl, inr, Bool-cases, Bytes, All, length,
}
use gear_mcp_server.Exec.{Result, ok}
use gear_mcp_server.Queue.{
  Slot, Task, Queue, Move, Round, put, set_dispatch_available, submit, begin_invoke, begun,
  finished, finish, complete, move, moves, run_task, after_task, process_round, process_pending,
}
use gear_mcp_server.Queue.Waits.{
  Distinct, Waiting, put_same, Waiting-put_waiting, Waiting-put_other, NotIn-Waiting, Distinct-last,
  Waiting-last, idle≢waiting, done≢waiting,
}
use gear_mcp_server.Queue.Ends.{begun_among, process_pending-IsOver}

-- A call that has begun has its text, and it is one that the call may get.
abbrev pub HasText : (ℕ → Bytes → Type 0) → ℕ → Slot → Type 0
HasText P k Slot.idle = Unit
HasText P k Slot.waiting = ⊥
HasText P k (Slot.done r) = P k r
HasText P k (Slot.returned r) = P k r

module _ {W : Type 0} (P : ℕ → Bytes → Type 0) where
  -- The task comes back in every world, with a text that the call may get.
  abbrev pub Tells : ℕ → (W → Result Bytes × W) → Type 0
  Tells k f = (w : W) → (r : Bytes) × ((f w).0 ≡ ok r) × P k r

  -- What is asked of a move: a call that begins has a task that comes back, and no wait is given up.
  abbrev pub IsPatient : Move W → Type 0
  IsPatient (Move.switches a) = Unit
  IsPatient (Move.begins k f) = Tells k f
  IsPatient (Move.wakes k) = Unit
  IsPatient (Move.gives_up k) = ⊥

  abbrev pub ArePatient : List (Round W) → Type 0
  ArePatient [] = Unit
  ArePatient (m ∷ ms) = All IsPatient m.before × All IsPatient m.during × ArePatient ms

  -- The call has a task in the list.
  abbrev pub IsIn : ℕ → List (Task W) → Type 0
  IsIn k [] = ⊥
  IsIn k (t ∷ ts) = (t.caller ≡ k) ⊎ IsIn k ts

  -- A call that waits has a task in the list, and one that has a text has one that it may get.
  abbrev pub Fits : List (Task W) → ℕ → Slot → Type 0
  Fits ts k Slot.idle = Unit
  Fits ts k Slot.waiting = IsIn k ts
  Fits ts k (Slot.done r) = P k r
  Fits ts k (Slot.returned r) = P k r

  -- The tasks are those of the calls that wait, one for each; `ts` are the tasks that are not
  -- completed.
  pub record IsServed (ts : List (Task W)) (q : Queue W) : Type 0 where
    pub distinct : Distinct ts
    pub waits : Waiting q.slots ts
    pub safe : q.dangling ≡ false
    pub tells : All (λ t. Tells t.caller t.func) ts
    pub texts : (k : ℕ) → Fits ts k (q.slots k)

  IsIn-last : (k : ℕ) (t : Task W) (ts : List (Task W)) → IsIn k ts → IsIn k (ts ++ t ∷ [])
  IsIn-last k t [] h = absurd h
  IsIn-last k t (u ∷ us) (inl e) = inl e
  IsIn-last k t (u ∷ us) (inr h) = inr (IsIn-last k t us h)

  IsIn-new : (t : Task W) (ts : List (Task W)) → IsIn t.caller (ts ++ t ∷ [])
  IsIn-new t [] = inl refl
  IsIn-new t (u ∷ us) = inr (IsIn-new t us)

  Fits-last :
      (t : Task W) (ts : List (Task W)) (k : ℕ) (v : Slot) → Fits ts k v → Fits (ts ++ t ∷ []) k v
  Fits-last t ts k Slot.idle h = tt
  Fits-last t ts k Slot.waiting h = IsIn-last k t ts h
  Fits-last t ts k (Slot.done r) h = h
  Fits-last t ts k (Slot.returned r) h = h

  -- A slot is written, and the others fit as before.
  Fits-put :
      (ts : List (Task W)) (j : ℕ) (v : Slot) (slots : ℕ → Slot)
      → Fits ts j v
      → ((k : ℕ) → (k == j) ≡ false → Fits ts k (slots k))
      → (k : ℕ) → Fits ts k (put j v slots k)
  Fits-put ts j v slots here others k = elim (Bool-cases (k == j)) [
    | inr e ↦ rw e (others k e)
    | inl e ↦ let same : j ≡ k = ground (arith, e) in rw (e, ← same) here
  ]

  All-last :
      (t : Task W) (ts : List (Task W))
      → Tells t.caller t.func
      → All (λ t. Tells t.caller t.func) ts
      → All (λ t. Tells t.caller t.func) (ts ++ t ∷ [])
  All-last t [] h a = (h, tt)
  All-last t (u ∷ us) h a = (a.0, All-last t us h a.1)

  submit-IsServed :
      (k : ℕ) (f : W → Result Bytes × W) (ts : List (Task W)) (q : Queue W)
      → q.slots k ≡ Slot.idle
      → Tells k f
      → IsServed ts q
      → IsServed (ts ++ (record { func = f; caller = k }) ∷ []) (submit k f q)
  unfolding submit
  submit-IsServed k f ts q e tells s =
      let t : Task W = record { func = f; caller = k } in
      record {
        distinct =
            Distinct-last t ts (NotIn-Waiting k q.slots ts (idle≢waiting (q.slots k) e) s.waits)
              s.distinct;
        waits =
            Waiting-last (put k Slot.waiting q.slots) t ts (put_same k Slot.waiting q.slots)
              (Waiting-put_waiting k q.slots ts s.waits);
        safe = s.safe;
        tells = All-last t ts tells s.tells;
        texts =
            Fits-put (ts ++ t ∷ []) k Slot.waiting q.slots (IsIn-new t ts)
              (λ j h. Fits-last t ts j (q.slots j) (s.texts j));
      }

  -- The tasks that are not completed: one that runs, and those of the queue.
  abbrev pub Holds : List (Task W) → Queue W → Type 0
  Holds held q = IsServed (held ++ q.pending) q

  finished-Holds :
      (k : ℕ) (held : List (Task W)) (v : Slot) (q : Queue W)
      → q.slots k ≡ v
      → Holds held q
      → Holds held (finished k v q)
  finished-Holds k held (Slot.done r) q e s =
      let fits = s.texts k in
      let got : P k r = rw e at fits in
      record {
        distinct = s.distinct;
        waits =
            Waiting-put_other k (Slot.returned r) q.slots (held ++ q.pending)
              (NotIn-Waiting k q.slots (held ++ q.pending) (done≢waiting r (q.slots k) e) s.waits)
              s.waits;
        safe = s.safe;
        tells = s.tells;
        texts = Fits-put (held ++ q.pending) k (Slot.returned r) q.slots got (λ j h. s.texts j);
      }
  finished-Holds k held Slot.idle q e s = s
  finished-Holds k held Slot.waiting q e s = s
  finished-Holds k held (Slot.returned r) q e s = s

  begun-Holds :
      (k : ℕ) (f : W → Result Bytes × W) (held : List (Task W)) (v : Slot) (q : Queue W)
      → q.slots k ≡ v
      → Tells k f
      → Holds held q
      → Holds held (begun k f v q)
  unfolding begin_invoke
  begun-Holds k f held Slot.idle q e tells s = elim (Bool-cases q.available) [
    | inr n ↦ rw n (record {
      distinct = s.distinct;
      waits = s.waits;
      safe = s.safe;
      tells = s.tells;
      texts = s.texts;
    })
    | inl y ↦
        let longer = submit-IsServed k f (held ++ q.pending) q e tells s in
        let joined = append_assoc held q.pending (record { func = f; caller = k } ∷ []) in
        let served = rw joined at longer in
        rw y (
          unfold submit in
          record {
            distinct = served.distinct;
            waits = served.waits;
            safe = served.safe;
            tells = served.tells;
            texts = served.texts;
          })
  ]
  begun-Holds k f held Slot.waiting q e tells s = s
  begun-Holds k f held (Slot.done r) q e tells s = s
  begun-Holds k f held (Slot.returned r) q e tells s = s

  move-Holds :
      (m : Move W) (held : List (Task W)) (q : Queue W)
      → IsPatient m
      → Holds held q
      → Holds held (move m q)
  unfolding move set_dispatch_available finish
  move-Holds (Move.switches a) held q p s = record {
    distinct = s.distinct;
    waits = s.waits;
    safe = s.safe;
    tells = s.tells;
    texts = s.texts;
  }
  move-Holds (Move.begins k f) held q p s = begun-Holds k f held (q.slots k) q refl p s
  move-Holds (Move.wakes k) held q p s = finished-Holds k held (q.slots k) q refl s
  move-Holds (Move.gives_up k) held q p s = absurd p

  moves-Holds :
      (ms : List (Move W)) (held : List (Task W)) (q : Queue W)
      → All IsPatient ms
      → Holds held q
      → Holds held (moves ms q)
  unfolding moves
  moves-Holds [] held q p s = s
  moves-Holds (m ∷ ms) held q p s = moves-Holds ms held (move m q) p.1 (move-Holds m held q p.0 s)

  Fits-tail :
      (t : Task W) (ts : List (Task W)) (k : ℕ) (v : Slot)
      → (k == t.caller) ≡ false
      → Fits (t ∷ ts) k v
      → Fits ts k v
  Fits-tail t ts k Slot.idle e h = tt
  Fits-tail t ts k Slot.waiting e (inl same) = absurd (ground (arith, same, e))
  Fits-tail t ts k Slot.waiting e (inr h) = h
  Fits-tail t ts k (Slot.done r) e h = h
  Fits-tail t ts k (Slot.returned r) e h = h

  -- The task that runs is completed, and its call gets its text.
  complete-Holds :
      (t : Task W) (r : Bytes) (q : Queue W)
      → P t.caller r
      → Holds (t ∷ []) q
      → Holds [] (complete t.caller (ok r) q).1
  complete-Holds t r q p s = rw s.waits.0 (record {
    distinct = s.distinct.1;
    waits = Waiting-put_other t.caller (Slot.done r) q.slots q.pending s.distinct.0 s.waits.1;
    safe = s.safe;
    tells = s.tells.1;
    texts =
        Fits-put q.pending t.caller (Slot.done r) q.slots p
          (λ k e. Fits-tail t q.pending k (q.slots k) e (s.texts k));
  })

  Fits-none : (ts : List (Task W)) (k : ℕ) (v : Slot) → ts ≡ [] → Fits ts k v → HasText P k v
  Fits-none ts k Slot.idle e h = tt
  Fits-none [] k Slot.waiting e h = h
  Fits-none (t ∷ ts) k Slot.waiting e h = absurd (cc e)
  Fits-none ts k (Slot.done r) e h = h
  Fits-none ts k (Slot.returned r) e h = h

  -- If the loop is over, then with no exception, and each call has its text.
  abbrev AllServed : Option (Result (Unit {0}) × Queue W) → Type 0
  AllServed o =
      (r : Result (Unit {0})) (q : Queue W)
      → o ≡ some (r, q)
      → (r ≡ ok tt) × (q.dangling ≡ false) × ((k : ℕ) → HasText P k (q.slots k))

  run_task-AllServed :
      (next : Queue W → Option (Result (Unit {0}) × Queue W)) (ms : List (Move W)) (t : Task W)
      (ts : List (Task W)) (q : Queue W)
      → All IsPatient ms
      → Holds (t ∷ []) (record q { pending = ts })
      → ((q : Queue W) → Holds [] q → AllServed (next q))
      → AllServed (after_task next (run_task ms t ts q))
  unfolding run_task
  run_task-AllServed next ms t ts q p s ih =
      let (r, back, may) = s.tells.0 q.world in
      let q' = record q { pending = ts; world = (t.func q.world).1 } in
      let held : Holds (t ∷ []) q' = record {
        distinct = s.distinct;
        waits = s.waits;
        safe = s.safe;
        tells = s.tells;
        texts = s.texts;
      } in
      rw back (
        ih (complete t.caller (ok r) (moves ms q')).1
          (complete-Holds t r (moves ms q') may (moves-Holds ms (t ∷ []) q' p held)))

  process_round-AllServed :
      (next : Queue W → Option (Result (Unit {0}) × Queue W)) (ms : List (Move W))
      (ts : List (Task W)) (q : Queue W)
      → q.pending ≡ ts
      → All IsPatient ms
      → IsServed ts q
      → ((q : Queue W) → Holds [] q → AllServed (next q))
      → AllServed (process_round next ms ts q)
  process_round-AllServed next ms [] q e p s ih = λ r q' over.
      let same : ◌≡◌ {A = Result (Unit {0}) × Queue W} (ok tt, q) (r, q') = cc in
      (
        sym (ap (λ o. o.0) same),
        sym (ap (λ o. o.1.dangling) same) ∙ s.safe,
        λ k.
            let text = Fits-none [] k (q.slots k) refl (s.texts k) in
            let slot = ap (λ o. o.1.slots k) same in rw slot at text,
      )
  process_round-AllServed next ms (t ∷ ts) q e p s ih =
      run_task-AllServed next ms t ts q p
        (record {
          distinct = s.distinct;
          waits = s.waits;
          safe = s.safe;
          tells = s.tells;
          texts = s.texts;
        })
        ih

  process_pending-AllServed :
      (fuel : ℕ) (rounds : List (Round W)) (q : Queue W)
      → ArePatient rounds
      → Holds [] q
      → AllServed (process_pending fuel rounds q)
  unfolding process_pending
  process_pending-AllServed zero rounds q p s = λ r q' over. cc
  process_pending-AllServed (suc fuel) [] q p s =
      process_round-AllServed (process_pending fuel []) [] q.pending q refl tt s
        (λ q h. process_pending-AllServed fuel [] q tt h)
  process_pending-AllServed (suc fuel) (m ∷ ms) q p s =
      let q' = moves m.before q in
      process_round-AllServed (process_pending fuel ms) m.during q'.pending q' refl p.1
        (moves-Holds m.before [] q p.0 s) (λ q h. process_pending-AllServed fuel ms q p.2 h)

  -- At the start each task in the queue belongs to a call of its own that waits, each call that
  -- waits has one, and nothing was written to locals that were gone. While `process_pending` runs,
  -- the other threads begin calls, switch the dispatch and wake up, in any order, before the rounds
  -- and during the tasks, but none gives up its wait; every task comes back, in every world, with a
  -- text that its call may get. Then the loop comes to an end within as many rounds as there are
  -- tasks in the queue and calls that begin, and one more: with no exception, with the queue empty
  -- and no result written to locals that are gone; no call waits any more, whether it began before
  -- or during the loop, and each text that was delivered to a call is one that this call may get.
  pub process_pending-HasText :
      (fuel : ℕ) (rounds : List (Round W)) (q : Queue W)
      → length q.pending + begun_among rounds < fuel
      → ArePatient rounds
      → IsServed q.pending q
      → (q' : Queue W) × (process_pending fuel rounds q ≡ some (ok tt, q'))
        × (q'.pending ≡ [])
        × (q'.dangling ≡ false)
        × ((k : ℕ) → HasText P k (q'.slots k))
  process_pending-HasText fuel rounds q h p s =
      let (r, q', over, empty) = process_pending-IsOver fuel rounds q h in
      let (fine, safe, texts) = process_pending-AllServed fuel rounds q p s r q' over in
      (q', over ∙ ap (λ r. some (r, q')) fine, empty fine, safe, texts)
