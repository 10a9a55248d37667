-- ===== src/Frontend/Queue.antt =====
-- miniweb_frontend.c: the queue of connections between the main thread, which accepts them, and the
-- worker thread, step by step.
pub mod State
pub mod Put
pub mod Order
pub mod Fifo
pub mod Drain
use caplifive_buildroot.Base.{
  ℕ, ◌+◌, ◌-◌, ◌%◌, ◌≡◌, Bool, Option, none, some, List, [], ◌∷◌, ◌++◌, ◌==◌, if◌then◌else◌,
}

abbrev pub queue_size : ℕ
queue_size = 16

-- `queue`, with the values of its semaphores
pub record Queue : Type 0 where
  pub d : ℕ → ℕ
  pub front : ℕ
  pub back : ℕ
  pub mutex : ℕ
  pub slots : ℕ
  pub items : ℕ

-- The array has what `malloc` gives.
unfoldable pub queue_create : (ℕ → ℕ) → Queue
queue_create junk = record {
  d = junk;
  front = 0;
  back = 0;
  mutex = 1;
  slots = queue_size;
  items = 0;
}

-- Where the main thread is: in `accept`, and then before each statement of `enqueue`.
pub data Producer : Type 0 where
  accepting : Producer
  wait_slots : (fd : ℕ) → Producer
  wait_mutex : (fd : ℕ) → Producer
  store : (fd : ℕ) → Producer
  step_back : (fd : ℕ) → Producer
  post_mutex : Producer
  post_items : Producer

-- Where the worker is: before each statement of `dequeue`, and then at work on the connection that it
-- has taken.
pub data Worker : Type 0 where
  wait_items : Worker
  wait_mutex : Worker
  load : Worker
  step_front : (fd : ℕ) → Worker
  post_mutex : (fd : ℕ) → Worker
  post_slots : (fd : ℕ) → Worker
  serving : (fd : ℕ) → Worker

abbrev pub put_at : (ℕ → ℕ) → ℕ → ℕ → ℕ → ℕ
put_at d i v j = if i == j then v else d j

-- The next step of `enqueue`, or `none` while a semaphore is 0 and while there is no connection.
unfoldable pub enqueue_step : Producer → Queue → Option (Producer × Queue)
enqueue_step Producer.accepting q = none
enqueue_step (Producer.wait_slots fd) q =
    if q.slots == 0 then none else some (Producer.wait_mutex fd, record q { slots = q.slots - 1 })
enqueue_step (Producer.wait_mutex fd) q =
    if q.mutex == 0 then none else some (Producer.store fd, record q { mutex = q.mutex - 1 })
enqueue_step (Producer.store fd) q =
    some (Producer.step_back fd, record q { d = put_at q.d q.back fd })
enqueue_step (Producer.step_back fd) q =
    some (Producer.post_mutex, record q { back = (q.back + 1) % queue_size })
enqueue_step Producer.post_mutex q = some (Producer.post_items, record q { mutex = q.mutex + 1 })
enqueue_step Producer.post_items q = some (Producer.accepting, record q { items = q.items + 1 })

-- The next step of `dequeue`. The end of the work on a connection is one more step.
unfoldable pub dequeue_step : Worker → Queue → Option (Worker × Queue)
dequeue_step Worker.wait_items q =
    if q.items == 0 then none else some (Worker.wait_mutex, record q { items = q.items - 1 })
dequeue_step Worker.wait_mutex q =
    if q.mutex == 0 then none else some (Worker.load, record q { mutex = q.mutex - 1 })
dequeue_step Worker.load q = some (Worker.step_front (q.d q.front), q)
dequeue_step (Worker.step_front fd) q =
    some (Worker.post_mutex fd, record q { front = (q.front + 1) % queue_size })
dequeue_step (Worker.post_mutex fd) q =
    some (Worker.post_slots fd, record q { mutex = q.mutex + 1 })
dequeue_step (Worker.post_slots fd) q = some (Worker.serving fd, record q { slots = q.slots + 1 })
dequeue_step (Worker.serving fd) q = some (Worker.wait_items, q)

-- The connection that a step of `dequeue` returns
abbrev pub returned : Worker → List ℕ
returned (Worker.post_slots fd) = fd ∷ []
returned w = []

-- The two threads, with the connections accepted and those that `dequeue` has returned so far
pub record System : Type 0 where
  pub queue : Queue
  pub producer : Producer
  pub worker : Worker
  pub accepted : List ℕ
  pub taken : List ℕ

abbrev pub start : (ℕ → ℕ) → System
start junk = record {
  queue = queue_create junk;
  producer = Producer.accepting;
  worker = Worker.wait_items;
  accepted = [];
  taken = [];
}

-- A step of one of the threads, in any order. A client decides when `accept` returns.
pub data Step (s : System) : System → Type 0 where
  accepts :
      (fd : ℕ)
      → s.producer ≡ Producer.accepting
      → Step s (record s { producer = Producer.wait_slots fd; accepted = s.accepted ++ fd ∷ [] })
  enqueues :
      {p : Producer} {q : Queue}
      → enqueue_step s.producer s.queue ≡ some (p, q)
      → Step s (record s { producer = p; queue = q })
  dequeues :
      {w : Worker} {q : Queue}
      → dequeue_step s.worker s.queue ≡ some (w, q)
      → Step s (record s { worker = w; queue = q; taken = s.taken ++ returned s.worker })

pub data Reach (junk : ℕ → ℕ) : System → Type 0 where
  here : Reach junk (start junk)
  next : {s t : System} → Reach junk s → Step s t → Reach junk t
