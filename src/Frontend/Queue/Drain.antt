-- ===== src/Frontend/Queue/Drain.antt =====
-- miniweb_frontend.c: the two threads do not block each other, and every connection accepted is
-- taken.
use mathlib.Core.List.{append-nil}
use caplifive_buildroot.Base.{
  ℕ, zero, suc, ◌+◌, ◌*◌, ◌≤◌, ◌≡◌, ◌⊎◌, refl, sym, ◌∙◌, inl, inr, none, some, List, ◌++◌, arith,
  Option-cases,
}
use caplifive_buildroot.Frontend.Queue.{
  Queue, Producer, Worker, enqueue_step, dequeue_step, returned, System, Step, enqueues, dequeues,
  Reach, next,
}
use caplifive_buildroot.Frontend.Queue.State.{p_slot, w_slot, p_mutex, w_mutex, in_order, Inv}
use caplifive_buildroot.Frontend.Queue.Put.{Leads, Leads-some}
use caplifive_buildroot.Frontend.Queue.Order.{Reach-Inv}

-- The steps that a thread still takes for the connection that it has, and whether the main thread
-- has one
abbrev p_left : Producer → ℕ
p_left Producer.accepting = 0
p_left (Producer.wait_slots fd) = 6
p_left (Producer.wait_mutex fd) = 5
p_left (Producer.store fd) = 4
p_left (Producer.step_back fd) = 3
p_left Producer.post_mutex = 2
p_left Producer.post_items = 1

abbrev p_one : Producer → ℕ
p_one Producer.accepting = 0
p_one p = 1

abbrev w_work : Worker → ℕ
w_work Worker.wait_items = 0
w_work Worker.wait_mutex = 6
w_work Worker.load = 5
w_work (Worker.step_front fd) = 4
w_work (Worker.post_mutex fd) = 3
w_work (Worker.post_slots fd) = 2
w_work (Worker.serving fd) = 1

abbrev p_work : Producer → Queue → ℕ
p_work p q = p_left p + 7 * (q.items + p_one p)

-- The steps that the threads still take for the connections accepted so far
abbrev pub work : System → ℕ
work s = p_work s.producer s.queue + w_work s.worker

enqueue_step-work :
    (p : Producer) (q : Queue) → Leads (λ r. p_work r.0 r.1 + 1 ≡ p_work p q) (enqueue_step p q)
unfolding enqueue_step
enqueue_step-work Producer.accepting q = tt
enqueue_step-work p q = ground arith

dequeue_step-work :
    (p : Producer) (w : Worker) (q : Queue)
    → Leads (λ r. p_work p r.1 + w_work r.0 + 1 ≡ p_work p q + w_work w) (dequeue_step w q)
unfolding dequeue_step
dequeue_step-work p Worker.load q = omega arith
dequeue_step-work p w q = ground arith

-- A step of one of the threads, with no new connection
pub data Moves (s : System) : System → Type 0 where
  main :
      {p : Producer} {q : Queue}
      → enqueue_step s.producer s.queue ≡ some (p, q)
      → Moves s (record s { producer = p; queue = q })
  worker :
      {w : Worker} {q : Queue}
      → dequeue_step s.worker s.queue ≡ some (w, q)
      → Moves s (record s { worker = w; queue = q; taken = s.taken ++ returned s.worker })

-- `n` such steps
pub data Runs (s : System) : ℕ → System → Type 0 where
  stay : Runs s zero s
  more : {n : ℕ} {t u : System} → Runs s n t → Moves t u → Runs s (suc n) u

Moves-Step : {s t : System} → Moves s t → Step s t
Moves-Step (main e) = enqueues e
Moves-Step (worker e) = dequeues e

Moves-work : {s t : System} → Moves s t → work t + 1 ≡ work s
Moves-work {s} (main {p} {q} e) = omega (
  arith,
  Leads-some (λ r. p_work r.0 r.1 + 1 ≡ p_work s.producer s.queue) (enqueue_step s.producer s.queue)
      (p, q) (enqueue_step-work s.producer s.queue) e,
)
Moves-work {s} (worker {w} {q} e) =
    Leads-some (λ r. p_work s.producer r.1 + w_work r.0 + 1 ≡ work s)
      (dequeue_step s.worker s.queue) (w, q) (dequeue_step-work s.producer s.worker s.queue) e

Moves-accepted : {s t : System} → Moves s t → t.accepted ≡ s.accepted
Moves-accepted (main e) = refl
Moves-accepted (worker e) = refl

-- Both threads wait only when there is nothing left to do.
both_wait :
    (p : Producer) (w : Worker) (q : Queue)
    → q.slots + q.items + p_slot p + w_slot w ≡ 16
    → q.mutex + p_mutex p + w_mutex w ≡ 1
    → enqueue_step p q ≡ none
    → dequeue_step w q ≡ none
    → p_work p q + w_work w ≡ 0
unfolding enqueue_step dequeue_step
both_wait p Worker.load q s m e d = cc
both_wait p w q s m e d = ground arith

-- With nothing left to do, what was accepted has been taken.
all_taken :
    (p : Producer) (w : Worker) (q : Queue) (accepted taken : List ℕ)
    → p_work p q + w_work w ≡ 0
    → accepted
      ≡ in_order
          (record { queue = q; producer = p; worker = w; accepted = accepted; taken = taken })
    → taken ≡ accepted
all_taken Producer.accepting Worker.wait_items q accepted taken z h =
    let n : q.items + 0 + 0 ≡ 0 = omega arith in sym (rw append-nil at (rw n at h))
all_taken p w q accepted taken z h = absurd (ground arith)

-- Some thread can take a step.
abbrev pub CanMove : System → Type 0
CanMove s = (t : System) × Moves s t

progress : (s : System) → Inv s → CanMove s ⊎ (s.taken ≡ s.accepted)
progress s v = elim (Option-cases (enqueue_step s.producer s.queue)) [
  | inr (r, e) ↦ inl (_, main e)
  | inl e ↦ elim (Option-cases (dequeue_step s.worker s.queue)) [
    | inr (r, d) ↦ inl (_, worker d)
    | inl d ↦ inr (
        all_taken s.producer s.worker s.queue s.accepted s.taken
          (both_wait s.producer s.worker s.queue v.slots v.mutex e d) v.history)
  ]
]

Runs-kept :
    {junk : ℕ → ℕ} {s t : System} {n : ℕ}
    → Reach junk s
    → Runs s n t
    → Reach junk t × (work t + n ≡ work s) × (t.accepted ≡ s.accepted)
Runs-kept r stay = (r, omega arith, refl)
Runs-kept r (more run m) =
    let (reach, left, same) = Runs-kept r run in
    (next reach (Moves-Step m), omega (arith, Moves-work m, left), Moves-accepted m ∙ same)

-- In whatever order the two threads take their steps, from any state that they can reach: with no
-- new connection they take `work` steps at most, and as long as a connection that was accepted has
-- not been taken by the worker, one of them can take a step.
pub Runs-drains :
    {junk : ℕ → ℕ} {s t : System} {n : ℕ}
    → Reach junk s
    → Runs s n t
    → (n ≤ work s) × (t.accepted ≡ s.accepted) × (CanMove t ⊎ (t.taken ≡ s.accepted))
Runs-drains {t} r run =
    let (reach, left, same) = Runs-kept r run in
    (
      omega arith,
      same,
      elim (progress t (Reach-Inv reach)) [ inl m ↦ inl m | inr e ↦ inr (e ∙ same) ],
    )
