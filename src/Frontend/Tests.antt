-- ===== src/Frontend/Tests.antt =====
-- miniweb_frontend.c: a run of the queue, and requests to a server with one file.
use caplifive_buildroot.Base.{
  ℕ, ◌+◌, ◌≤◌, ◌<◌, ◌≡◌, ◌⊎◌, refl, List, [], ◌∷◌, Option, none, some, done, fault, arith,
}
use caplifive_buildroot.Cgi.Register.{codes}
use caplifive_buildroot.Backend.{request_reprocessing, route, simple_strcmp, html}
use caplifive_buildroot.Backend.Dispatch.{request-routes}
use caplifive_buildroot.Backend.Tests.{socket, Plain-cons}
use caplifive_buildroot.Backend.Respond.{Memory}
use caplifive_buildroot.Frontend.Queue.{
  Producer, Worker, System, queue_create, enqueue_step, start, accepts, Reach, here, next,
}
use caplifive_buildroot.Frontend.Queue.State.{p_mutex, w_mutex, stored_n}
use caplifive_buildroot.Frontend.Queue.Fifo.{Fifo, held, Reach-Fifo}
use caplifive_buildroot.Frontend.Queue.Drain.{Runs, stay, more, main, work, CanMove, Runs-drains}
use caplifive_buildroot.Frontend.Worker.{Entry, Heap, received, worker_round}
use caplifive_buildroot.Frontend.Worker.Answers.{IsRoomy, ready}
use caplifive_buildroot.Frontend.Worker.Faults.{large_page_overflows}

-- One connection has been accepted.
abbrev one_accepted : System
one_accepted = record {
  queue = (start (λ i. 0)).queue;
  producer = Producer.wait_slots 7;
  worker = Worker.wait_items;
  accepted = 7 ∷ [];
  taken = [];
}

one_accepted-Reach : Reach (λ i. 0) one_accepted
one_accepted-Reach = next here (accepts 7 refl)

Reach-Fifo_example :
    Fifo (7 ∷ []) [] (held one_accepted)
    × (stored_n one_accepted ≤ 16)
    × (one_accepted.queue.front < 16)
    × (one_accepted.queue.back < 16)
    × (p_mutex one_accepted.producer + w_mutex one_accepted.worker ≤ 1)
Reach-Fifo_example = Reach-Fifo one_accepted-Reach

-- The main thread has a slot for it.
abbrev slot_taken : System
slot_taken = record one_accepted {
  producer = Producer.wait_mutex 7;
  queue = record one_accepted.queue { slots = 15 };
}

one_step : Runs one_accepted 1 slot_taken
unfolding enqueue_step queue_create
one_step = more stay (main refl)

Runs-drains_example :
    (1 ≤ work one_accepted)
    × (slot_taken.accepted ≡ 7 ∷ [])
    × (CanMove slot_taken ⊎ (slot_taken.taken ≡ 7 ∷ []))
Runs-drains_example = Runs-drains one_accepted-Reach one_step

-- A request for /, and a server whose only file is that
abbrev get_request : Entry
get_request = Entry.readable (record { size = 14; bytes = socket })

abbrev blank : Memory
blank = record {
  status = 0;
  html_len = 0;
  socket_len = 0;
  path = [];
  socket = λ i. 0;
  html_bytes = λ i. 0;
  response = λ i. 0;
}

abbrev page_of_size : ℕ → List ℕ → Option Entry
page_of_size n path = some (Entry.readable (record { size = n; bytes = λ i. b'x' }))

-- A heap that clears its blocks and rounds them up
abbrev clean_heap : Heap
clean_heap = record { beyond = λ n. []; usable = λ n. n + 8 }

clean_heap-IsRoomy : IsRoomy clean_heap
clean_heap-IsRoomy = record { zeroed = λ n. refl; spare = λ n. omega arith }

get_request-routes :
    request_reprocessing (λ i. 32) (received get_request (ready blank [])).memory.socket
    ≡ done (html (codes "/"))
unfolding route simple_strcmp
get_request-routes =
    request-routes (λ i. 32) (received get_request (ready blank [])).memory.socket (codes "GO")
      (codes "/") (refl, (refl, (refl, (refl, (refl, tt)))))
      (Plain-cons b'G' (codes "O") (omega arith) (Plain-cons b'O' [] (omega arith) tt))
      (Plain-cons b'/' [] (omega arith) tt) (omega arith) (omega arith)

abbrev page_of_ten : List ℕ → Option Entry
page_of_ten = page_of_size 10

large_page_overflows_example :
    worker_round
      (λ b m. m)
      (λ i. 32)
      clean_heap
      (page_of_size 5000)
      none
      get_request
      (ready blank [])
    ≡ fault
large_page_overflows_example =
    large_page_overflows (λ b m. m) (λ i. 32) clean_heap (page_of_size 5000) none blank []
      get_request (record { size = 5000; bytes = λ i. b'x' }) (codes "/") clean_heap-IsRoomy
      get_request-routes refl (omega arith)
