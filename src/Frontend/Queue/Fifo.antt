-- ===== src/Frontend/Queue/Fifo.antt =====
-- miniweb_frontend.c: to its two threads the queue is a channel that keeps the order.
use mathlib.Core.List.{append_assoc, append-nil}
use caplifive_buildroot.Base.{ℕ, ◌+◌, ◌≤◌, ◌<◌, List, [], ◌∷◌, ◌++◌, arith}
use caplifive_buildroot.Frontend.Queue.{Producer, Worker, System, Reach}
use caplifive_buildroot.Frontend.Queue.State.{
  window, p_mutex, w_mutex, p_slot, w_slot, p_put, w_left, p_has, w_has, stored_n, Inv,
}
use caplifive_buildroot.Frontend.Queue.Order.{Reach-Inv}

-- The runs of an unbounded channel: what was put in, what was got out, and what it holds
pub data Fifo : List ℕ → List ℕ → List ℕ → Type 0 where
  empty : Fifo [] [] []
  put :
      {ins outs held : List ℕ} (x : ℕ)
      → Fifo ins outs held
      → Fifo (ins ++ x ∷ []) outs (held ++ x ∷ [])
  get : {ins outs held : List ℕ} {x : ℕ} → Fifo ins outs (x ∷ held) → Fifo ins (outs ++ x ∷ []) held

put_all :
    {ins outs held : List ℕ} (xs : List ℕ) → Fifo ins outs held → Fifo (ins ++ xs) outs (held ++ xs)
put_all [] f = rw append-nil (rw append-nil f)
put_all {ins} {outs} {held} (x ∷ xs) f =
    rw (← append_assoc ins (x ∷ []) xs, ← append_assoc held (x ∷ []) xs) (put_all xs (put x f))

get_all :
    {ins outs held : List ℕ} (xs : List ℕ) → Fifo ins outs (xs ++ held) → Fifo ins (outs ++ xs) held
get_all [] f = rw append-nil f
get_all {ins} {outs} {held} (x ∷ xs) f = rw (← append_assoc outs (x ∷ []) xs) (get_all xs (get f))

-- The connections accepted and not yet returned by `dequeue`: in the worker's hands, in the array,
-- and in the main thread's hands
abbrev pub held : System → List ℕ
held s = w_has s.worker ++ (window s.queue.d s.queue.front (stored_n s) ++ p_has s.producer)

p_put-le : (p : Producer) → p_put p ≤ p_slot p
p_put-le p = ground arith

w_left-le : (w : Worker) → w_left w ≤ w_slot w
w_left-le w = ground arith

slot_bounds : (s : System) → Inv s → (stored_n s ≤ 16) × (p_mutex s.producer + w_mutex s.worker ≤ 1)
slot_bounds s v =
    (omega (arith, v.slots, p_put-le s.producer, w_left-le s.worker), omega (arith, v.mutex))

-- In whatever order the main thread and the worker take their steps: what was accepted and what
-- `dequeue` has returned is a run of a channel that holds the rest in order; the array has at most
-- its 16 connections, and the two indices are inside it; and at most one thread is between the
-- calls on the mutex.
pub Reach-Fifo :
    {junk : ℕ → ℕ} {s : System}
    → Reach junk s
    → Fifo s.accepted s.taken (held s)
      × (stored_n s ≤ 16)
      × (s.queue.front < 16)
      × (s.queue.back < 16)
      × (p_mutex s.producer + w_mutex s.worker ≤ 1)
Reach-Fifo {s} r =
    let v = Reach-Inv r in
    let (room, alone) = slot_bounds s v in
    (
      rw v.history (get_all s.taken (put_all (s.taken ++ held s) Fifo.empty)),
      room,
      v.front,
      omega (arith, v.back),
      alone,
    )
