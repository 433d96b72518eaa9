-- ===== src/Queue/Waits.antt =====
-- The calls that wait for the main thread: what holds as long as none of them gives up, and what
-- happens after one has.
use gear_mcp_server.Base.{
  ℕ, ◌≡◌, ◌≢◌, refl, sym, ap, ◌∙◌, arith, Bool, true, false, List, [], ◌∷◌, ◌++◌, ◌==◌, Bool-cases,
  inl, inr, Bytes, All,
}
use gear_mcp_server.Exec.{Result, ok, threw}
use gear_mcp_server.Queue.{
  Slot, Task, Queue, put, set_dispatch_available, submit, finished, finish, time_out, complete,
  moves, run_task, process_front, process_one,
}

pub put_same : (k : ℕ) (v : Slot) (slots : ℕ → Slot) → put k v slots k ≡ v
put_same k v slots = let same : (k == k) ≡ true = ground arith in rw same

pub idle≢waiting : (v : Slot) → v ≡ Slot.idle → v ≢ Slot.waiting
idle≢waiting v e w = cc

pub done≢waiting : (r : Bytes) (v : Slot) → v ≡ Slot.done r → v ≢ Slot.waiting
done≢waiting r v e w = cc

module _ {W : Type 0} where
  abbrev pub NotIn : ℕ → List (Task W) → Type 0
  NotIn k = All (λ t. (t.caller == k) ≡ false)

  abbrev pub Distinct : List (Task W) → Type 0
  Distinct [] = Unit
  Distinct (t ∷ ts) = NotIn t.caller ts × Distinct ts

  abbrev pub Waiting : (ℕ → Slot) → List (Task W) → Type 0
  Waiting slots = All (λ t. slots t.caller ≡ Slot.waiting)

  -- Each task in the queue belongs to another call, which waits with its flag unset; and
  -- nothing was written to locals that were gone.
  pub record IsLive (q : Queue W) : Type 0 where
    pub distinct : Distinct q.pending
    pub waits : Waiting q.slots q.pending
    pub safe : q.dangling ≡ false

  -- The steps of the threads and of the main thread, without the end of a wait by its time.
  pub data Step : Queue W → Queue W → Type 0 where
    switched : (a : Bool) (q : Queue W) → Step q (set_dispatch_available a q)
    submitted :
        (k : ℕ) (f : W → Result Bytes × W) (q : Queue W)
        → q.slots k ≡ Slot.idle
        → Step q (submit k f q)
    processed : (q : Queue W) → Step q (process_one q).1
    woken : (k : ℕ) (q : Queue W) → Step q (finish k q)

  pub data Reach : Queue W → Queue W → Type 0 where
    initial : (q : Queue W) → Reach q q
    next : {q r s : Queue W} → Reach q r → Step r s → Reach q s

  pub Waiting-put_waiting :
      (k : ℕ) (slots : ℕ → Slot) (ts : List (Task W))
      → Waiting slots ts
      → Waiting (put k Slot.waiting slots) ts
  Waiting-put_waiting k slots [] h = tt
  Waiting-put_waiting k slots (t ∷ ts) h = (
    elim (Bool-cases (t.caller == k)) [ inl e ↦ rw e refl | inr e ↦ rw e h.0 ],
    Waiting-put_waiting k slots ts h.1,
  )

  pub Waiting-put_other :
      (k : ℕ) (v : Slot) (slots : ℕ → Slot) (ts : List (Task W))
      → NotIn k ts
      → Waiting slots ts
      → Waiting (put k v slots) ts
  Waiting-put_other k v slots [] n h = tt
  Waiting-put_other k v slots (t ∷ ts) n h = (rw n.0 h.0, Waiting-put_other k v slots ts n.1 h.1)

  -- A call whose slot does not wait has no task in the queue.
  pub NotIn-Waiting :
      (k : ℕ) (slots : ℕ → Slot) (ts : List (Task W))
      → slots k ≢ Slot.waiting
      → Waiting slots ts
      → NotIn k ts
  NotIn-Waiting k slots [] n h = tt
  NotIn-Waiting k slots (t ∷ ts) n h = (
    elim (Bool-cases (t.caller == k)) [
      | inl e ↦ absurd (n (ap slots (sym (same t.caller k e)) ∙ h.0))
      | inr e ↦ e
    ],
    NotIn-Waiting k slots ts n h.1,
  )
    where
      same : (a b : ℕ) → (a == b) ≡ true → a ≡ b
      same a b e = ground arith

  pub Distinct-last :
      (t : Task W) (ts : List (Task W)) → NotIn t.caller ts → Distinct ts → Distinct (ts ++ t ∷ [])
  Distinct-last t [] n d = (tt, tt)
  Distinct-last t (u ∷ us) n d =
      (NotIn-last u.caller t us (flip u.caller t.caller n.0) d.0, Distinct-last t us n.1 d.1)
    where
      flip : (a b : ℕ) → (a == b) ≡ false → (b == a) ≡ false
      flip a b e = ground arith

      NotIn-last :
          (k : ℕ) (v : Task W) (vs : List (Task W))
          → (v.caller == k) ≡ false
          → NotIn k vs
          → NotIn k (vs ++ v ∷ [])
      NotIn-last k v [] e h = (e, tt)
      NotIn-last k v (w ∷ ws) e h = (h.0, NotIn-last k v ws e h.1)

  pub Waiting-last :
      (slots : ℕ → Slot) (t : Task W) (ts : List (Task W))
      → slots t.caller ≡ Slot.waiting
      → Waiting slots ts
      → Waiting slots (ts ++ t ∷ [])
  Waiting-last slots t [] e h = (e, tt)
  Waiting-last slots t (u ∷ us) e h = (h.0, Waiting-last slots t us e h.1)

  submit-IsLive :
      (k : ℕ) (f : W → Result Bytes × W) (q : Queue W)
      → q.slots k ≡ Slot.idle
      → IsLive q
      → IsLive (submit k f q)
  unfolding submit
  submit-IsLive k f q e live = record {
    distinct =
        Distinct-last (record { func = f; caller = k }) q.pending
          (NotIn-Waiting k q.slots q.pending (idle≢waiting (q.slots k) e) live.waits) live.distinct;
    waits =
        Waiting-last (put k Slot.waiting q.slots) (record { func = f; caller = k }) q.pending
          (put_same k Slot.waiting q.slots) (Waiting-put_waiting k q.slots q.pending live.waits);
    safe = live.safe;
  }

  complete-IsLive :
      (k : ℕ) (r : Result Bytes) (q : Queue W)
      → q.slots k ≡ Slot.waiting
      → NotIn k q.pending
      → IsLive q
      → IsLive (complete k r q).1
  complete-IsLive k (threw e) q w n live = live
  complete-IsLive k (ok r) q w n live = rw w record {
    distinct = live.distinct;
    waits = Waiting-put_other k (Slot.done r) q.slots q.pending n live.waits;
    safe = live.safe;
  }

  process_front-IsLive :
      (ts : List (Task W)) (q : Queue W) → q.pending ≡ ts → IsLive q → IsLive (process_front ts q).1
  unfolding run_task moves
  process_front-IsLive [] q e live = live
  process_front-IsLive (t ∷ ts) q e live =
      let d : Distinct (t ∷ ts) = rw e at live.distinct in
      let w : Waiting q.slots (t ∷ ts) = rw e at live.waits in
      complete-IsLive t.caller (t.func q.world).0
        (record q { pending = ts; world = (t.func q.world).1 }) w.0 d.0
        (record { distinct = d.1; waits = w.1; safe = live.safe })

  finished-IsLive :
      (k : ℕ) (v : Slot) (q : Queue W) → q.slots k ≡ v → IsLive q → IsLive (finished k v q)
  finished-IsLive k (Slot.done r) q e live = record {
    distinct = live.distinct;
    waits =
        Waiting-put_other k (Slot.returned r) q.slots q.pending
          (NotIn-Waiting k q.slots q.pending (done≢waiting r (q.slots k) e) live.waits) live.waits;
    safe = live.safe;
  }
  finished-IsLive k Slot.idle q e live = live
  finished-IsLive k Slot.waiting q e live = live
  finished-IsLive k (Slot.returned r) q e live = live

  Step-IsLive : {q r : Queue W} → Step q r → IsLive q → IsLive r
  unfolding set_dispatch_available process_one finish
  Step-IsLive (switched a q) live = record {
    distinct = live.distinct;
    waits = live.waits;
    safe = live.safe;
  }
  Step-IsLive (submitted k f q e) live = submit-IsLive k f q e live
  Step-IsLive (processed q) live = process_front-IsLive q.pending q refl live
  Step-IsLive (woken k q) live = finished-IsLive k (q.slots k) q refl live

  -- As long as no call gives up its wait, in every order of the steps of the threads and of the
  -- main thread: each task in the queue belongs to a call of its own that still waits, and no
  -- result is written to locals that are gone.
  pub Reach-IsLive : {q r : Queue W} → Reach q r → IsLive q → IsLive r
  Reach-IsLive (initial q) live = live
  Reach-IsLive (next rs step) live = Step-IsLive step (Reach-IsLive rs live)

  -- A call that has given up its wait leaves its task at the front of the queue: when the main
  -- thread runs that task and the task returns, the result is written to the locals of a call
  -- that has returned.
  pub time_out-dangling :
      (t : Task W) (ts : List (Task W)) (q : Queue W) {r : Bytes}
      → q.pending ≡ t ∷ ts
      → q.slots t.caller ≡ Slot.waiting
      → (t.func q.world).0 ≡ ok r
      → (process_one (time_out t.caller q)).1.dangling ≡ true
  unfolding process_one time_out run_task moves
  time_out-dangling t ts q ep ew er = rw ew (rw ep (rw er (rw (put_same t.caller _ q.slots) refl)))
