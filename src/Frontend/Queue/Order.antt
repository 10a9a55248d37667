-- ===== src/Frontend/Queue/Order.antt =====
-- miniweb_frontend.c: connections leave the queue in the order in which they were accepted, and none
-- is lost.
use mathlib.Core.Path.{subst}
use mathlib.Core.List.{append_assoc, append-nil}
use caplifive_buildroot.Base.{
  ℕ, suc, ◌+◌, ◌-◌, ◌%◌, ◌≡◌, refl, ap, ◌∙◌, inl, inr, List, [], ◌∷◌, ◌++◌, arith, ◌==◌, Bool-cases,
}
use caplifive_buildroot.Frontend.Queue.{
  Queue, Producer, Worker, enqueue_step, dequeue_step, returned, System, Step, accepts, enqueues,
  dequeues, Reach, here, next,
}
use caplifive_buildroot.Frontend.Queue.State.{window, p_put, p_has, w_has, Inv}
use caplifive_buildroot.Frontend.Queue.Put.{
  start-Inv, Leads, Leads-some, after_enqueue, enqueue_step-Inv,
}

window-shift :
    (d : ℕ → ℕ) (m n h fd : ℕ)
    → m ≡ suc n
    → d h ≡ fd
    → window d h m ≡ fd ∷ window d ((h + 1) % 16) n
window-shift d m n h fd e f = rw e (ap (λ x. x ∷ window d ((h + 1) % 16) n) f)

taken_one : (xs ys : List ℕ) (a : ℕ) → (xs ++ []) ++ a ∷ ys ≡ (xs ++ a ∷ []) ++ ys
taken_one xs ys a = simp (append-nil, append_assoc)

one_more :
    (xs ys zs : List ℕ) (a : ℕ)
    → (xs ++ (ys ++ (zs ++ []))) ++ a ∷ [] ≡ xs ++ (ys ++ (zs ++ a ∷ []))
one_more xs ys zs a = simp (append-nil, append_assoc)

module _ (p : Producer) (accepted taken : List ℕ) where
  abbrev after_dequeue : List ℕ → Worker × Queue → System
  after_dequeue more (w, q) = record {
    queue = q;
    producer = p;
    worker = w;
    accepted = accepted;
    taken = taken ++ more;
  }

  dequeue_step-Inv :
      (w : Worker) (q : Queue)
      → Inv (after_dequeue [] (w, q))
      → Leads (λ r. Inv (after_dequeue (returned w) r)) (dequeue_step w q)
  unfolding dequeue_step
  dequeue_step-Inv Worker.wait_items q v = elim (Bool-cases (q.items == 0)) [
    | inl e ↦ rw e tt
    | inr e ↦ rw e (record {
      slots = ground (arith, v.slots);
      mutex = v.mutex;
      front = v.front;
      back = ground (arith, v.back);
      wrote = v.wrote;
      read = tt;
      history =
          let n : q.items - 1 + p_put p + 1 ≡ q.items + p_put p + 0 = ground arith in
          rw n v.history;
    })
  ]
  dequeue_step-Inv Worker.wait_mutex q v = elim (Bool-cases (q.mutex == 0)) [
    | inl e ↦ rw e tt
    | inr e ↦ rw e (record {
      slots = v.slots;
      mutex = ground (arith, v.mutex);
      front = v.front;
      back = v.back;
      wrote = v.wrote;
      read = tt;
      history = v.history;
    })
  ]
  dequeue_step-Inv Worker.load q v = record {
    slots = v.slots;
    mutex = v.mutex;
    front = v.front;
    back = v.back;
    wrote = v.wrote;
    read = refl;
    history = v.history;
  }
  dequeue_step-Inv (Worker.step_front fd) q v = record {
    slots = v.slots;
    mutex = v.mutex;
    front = omega arith;
    back = omega (arith, v.back);
    wrote = v.wrote;
    read = tt;
    history =
        v.history
        ∙ ap (λ l. (taken ++ []) ++ (l ++ p_has p))
            (window-shift q.d (q.items + p_put p + 1) (q.items + p_put p + 0) q.front fd
              (omega arith) v.read);
  }
  dequeue_step-Inv (Worker.post_mutex fd) q v = record {
    slots = v.slots;
    mutex = omega (arith, v.mutex);
    front = v.front;
    back = v.back;
    wrote = v.wrote;
    read = tt;
    history = v.history;
  }
  dequeue_step-Inv (Worker.post_slots fd) q v = record {
    slots = omega (arith, v.slots);
    mutex = v.mutex;
    front = v.front;
    back = v.back;
    wrote = v.wrote;
    read = tt;
    history = v.history ∙ taken_one taken _ fd;
  }
  dequeue_step-Inv (Worker.serving fd) q v = record {
    slots = v.slots;
    mutex = v.mutex;
    front = v.front;
    back = v.back;
    wrote = v.wrote;
    read = tt;
    history = v.history;
  }

to_nil : {s : System} → Inv s → Inv (record s { taken = s.taken ++ [] })
to_nil v = record {
  slots = v.slots;
  mutex = v.mutex;
  front = v.front;
  back = v.back;
  wrote = v.wrote;
  read = v.read;
  history = rw append-nil v.history;
}

accepts-Inv :
    (q : Queue) (w : Worker) (accepted taken : List ℕ) (fd : ℕ)
    → Inv (after_enqueue w accepted taken (Producer.accepting, q))
    → Inv (after_enqueue w (accepted ++ fd ∷ []) taken (Producer.wait_slots fd, q))
accepts-Inv q w accepted taken fd v = record {
  slots = v.slots;
  mutex = v.mutex;
  front = v.front;
  back = v.back;
  wrote = tt;
  read = v.read;
  history = ap (λ l. l ++ fd ∷ []) v.history ∙ one_more taken (w_has w) _ fd;
}

pub Step-Inv : {s t : System} → Step s t → Inv s → Inv t
Step-Inv {s} (accepts fd e) v =
    accepts-Inv s.queue s.worker s.accepted s.taken fd
      (subst (λ x. Inv (record s { producer = x })) e v)
Step-Inv {s} (enqueues {p} {q} e) v =
    Leads-some (λ r. Inv (after_enqueue s.worker s.accepted s.taken r))
      (enqueue_step s.producer s.queue) (p, q)
      (enqueue_step-Inv s.worker s.accepted s.taken s.producer s.queue v) e
Step-Inv {s} (dequeues {w} {q} e) v =
    Leads-some (λ r. Inv (after_dequeue s.producer s.accepted s.taken (returned s.worker) r))
      (dequeue_step s.worker s.queue) (w, q)
      (dequeue_step-Inv s.producer s.accepted s.taken s.worker s.queue (to_nil v)) e

pub Reach-Inv : {junk : ℕ → ℕ} {s : System} → Reach junk s → Inv s
Reach-Inv {junk} here = start-Inv junk
Reach-Inv (next r st) = Step-Inv st (Reach-Inv r)
