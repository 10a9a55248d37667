-- ===== src/Frontend/Queue/State.antt =====
-- miniweb_frontend.c: what holds of the queue and its two threads between two steps.
use caplifive_buildroot.Base.{ℕ, zero, suc, ◌+◌, ◌%◌, ◌<◌, ◌≡◌, List, [], ◌∷◌, ◌++◌}
use caplifive_buildroot.Frontend.Queue.{Producer, Worker, System}

-- The `n` connections in the array from index `h` on, going round
abbrev pub window : (ℕ → ℕ) → ℕ → ℕ → List ℕ
window d h zero = []
window d h (suc n) = d h ∷ window d ((h + 1) % 16) n

-- What a thread holds: a slot of the queue, and the mutex
abbrev pub p_slot : Producer → ℕ
p_slot Producer.accepting = 0
p_slot (Producer.wait_slots fd) = 0
p_slot p = 1

abbrev pub p_mutex : Producer → ℕ
p_mutex (Producer.store fd) = 1
p_mutex (Producer.step_back fd) = 1
p_mutex Producer.post_mutex = 1
p_mutex p = 0

abbrev pub w_slot : Worker → ℕ
w_slot Worker.wait_items = 0
w_slot (Worker.serving fd) = 0
w_slot w = 1

abbrev pub w_mutex : Worker → ℕ
w_mutex Worker.load = 1
w_mutex (Worker.step_front fd) = 1
w_mutex (Worker.post_mutex fd) = 1
w_mutex w = 0

-- The connections in the array that `items` does not count: put and not yet posted, or waited for
-- and not yet removed
abbrev pub p_put : Producer → ℕ
p_put Producer.post_mutex = 1
p_put Producer.post_items = 1
p_put p = 0

abbrev pub w_left : Worker → ℕ
w_left Worker.wait_mutex = 1
w_left Worker.load = 1
w_left (Worker.step_front fd) = 1
w_left w = 0

abbrev pub stored_n : System → ℕ
stored_n s = s.queue.items + p_put s.producer + w_left s.worker

-- The connection that a thread has, outside the array
abbrev pub p_has : Producer → List ℕ
p_has (Producer.wait_slots fd) = fd ∷ []
p_has (Producer.wait_mutex fd) = fd ∷ []
p_has (Producer.store fd) = fd ∷ []
p_has (Producer.step_back fd) = fd ∷ []
p_has p = []

abbrev pub w_has : Worker → List ℕ
w_has (Worker.post_mutex fd) = fd ∷ []
w_has (Worker.post_slots fd) = fd ∷ []
w_has w = []

-- What a thread has just written or read
abbrev pub PFresh : Producer → (ℕ → ℕ) → ℕ → Type 0
PFresh (Producer.step_back fd) d i = d i ≡ fd
PFresh p d i = Unit {0}

abbrev pub WFresh : Worker → (ℕ → ℕ) → ℕ → Type 0
WFresh (Worker.step_front fd) d i = d i ≡ fd
WFresh w d i = Unit {0}

-- In order: taken by the worker, in its hands, in the array, in the hands of the main thread
abbrev pub in_order : System → List ℕ
in_order s =
    s.taken ++ (w_has s.worker ++ (window s.queue.d s.queue.front (stored_n s) ++ p_has s.producer))

pub record Inv (s : System) : Type 0 where
  pub slots : s.queue.slots + s.queue.items + p_slot s.producer + w_slot s.worker ≡ 16
  pub mutex : s.queue.mutex + p_mutex s.producer + w_mutex s.worker ≡ 1
  pub front : s.queue.front < 16
  pub back : s.queue.back ≡ (s.queue.front + stored_n s) % 16
  pub wrote : PFresh s.producer s.queue.d s.queue.back
  pub read : WFresh s.worker s.queue.d s.queue.front
  pub history : s.accepted ≡ in_order s
