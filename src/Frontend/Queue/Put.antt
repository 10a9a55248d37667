-- ===== src/Frontend/Queue/Put.antt =====
-- miniweb_frontend.c, `enqueue`: every step keeps the connections in their order.
use mathlib.Core.List.{append-nil}
use caplifive_buildroot.Base.{
  ℕ, zero, suc, ◌+◌, ◌%◌, ◌≤◌, ◌<◌, ◌≡◌, refl, sym, ap, ◌∙◌, inl, inr, false, Option, none, some,
  List, [], ◌∷◌, ◌++◌, arith, ◌==◌, Bool-cases,
}
use caplifive_buildroot.Frontend.Queue.{
  Queue, queue_create, Producer, Worker, put_at, enqueue_step, System, start,
}
use caplifive_buildroot.Frontend.Queue.State.{
  window, w_slot, w_mutex, p_put, w_left, w_has, WFresh, Inv,
}

window-snoc :
    (d : ℕ → ℕ) (n h : ℕ) → h < 16 → window d h (suc n) ≡ window d h n ++ d ((h + n) % 16) ∷ []
window-snoc d zero h lt = let e : (h + 0) % 16 ≡ h = omega arith in rw e
window-snoc d (suc n) h lt =
    let e : ((h + 1) % 16 + n) % 16 ≡ (h + suc n) % 16 = omega arith in
    ap (λ l. d h ∷ l) (rw (← e) (window-snoc d n ((h + 1) % 16) (omega arith)))

window-grow :
    (d : ℕ → ℕ) (m n h i fd : ℕ)
    → h < 16
    → m ≡ suc n
    → i ≡ (h + n) % 16
    → d i ≡ fd
    → window d h n ++ fd ∷ [] ≡ window d h m
window-grow d m n h i fd lt e k f =
    rw e (sym (window-snoc d n h lt ∙ ap (λ x. window d h n ++ x ∷ []) (ap d (sym k) ∙ f)))

-- A write just past the window leaves it as it is.
window-put :
    (d : ℕ → ℕ) (v n h i : ℕ)
    → h < 16
    → n < 16
    → i ≡ (h + n) % 16
    → window (put_at d i v) h n ≡ window d h n
window-put d v zero h i lt m e = refl
window-put d v (suc n) h i lt m e =
    let other : (i == h) ≡ false = ground arith in
    rw other (
      ap (λ l. d h ∷ l)
        (window-put d v n ((h + 1) % 16) i (omega arith) (omega arith) (omega arith)))

pub start-Inv : (junk : ℕ → ℕ) → Inv (start junk)
unfolding queue_create
start-Inv junk = record {
  slots = refl;
  mutex = refl;
  front = omega arith;
  back = refl;
  wrote = tt;
  read = tt;
  history = refl;
}

-- What a step leads to, if it can be taken
abbrev pub Leads : {A : Type 0} → (A → Type 0) → Option A → Type 0
Leads P none = Unit {0}
Leads P (some a) = P a

pub Leads-some : {A : Type 0} (P : A → Type 0) (o : Option A) (a : A) → Leads P o → o ≡ some a → P a
Leads-some P o a h e = rw e at h

module _ (w : Worker) (accepted taken : List ℕ) where
  abbrev pub after_enqueue : Producer × Queue → System
  after_enqueue (p, q) = record {
    queue = q;
    producer = p;
    worker = w;
    accepted = accepted;
    taken = taken;
  }

  abbrev room : (q : Queue) (p : Producer) → ℕ
  room q p = q.items + p_put p + w_left w

  -- A main thread that holds a slot and has not put its connection has room for it.
  w_left-le : w_left w ≤ w_slot w
  w_left-le = ground arith

  -- A worker outside the mutex has not just read.
  outside : (a : Worker) (d e : ℕ → ℕ) (i : ℕ) → w_mutex a ≡ 0 → WFresh a d i → WFresh a e i
  outside (Worker.step_front fd) d e i z h = absurd (omega arith)
  outside Worker.load d e i z h = tt
  outside a d e i z h = tt

  pub enqueue_step-Inv :
      (p : Producer) (q : Queue)
      → Inv (after_enqueue (p, q))
      → Leads (λ r. Inv (after_enqueue r)) (enqueue_step p q)
  unfolding enqueue_step
  enqueue_step-Inv Producer.accepting q v = tt
  enqueue_step-Inv (Producer.wait_slots fd) q v = elim (Bool-cases (q.slots == 0)) [
    | inl e ↦ rw e tt
    | inr e ↦ rw e (record {
      slots = ground (arith, v.slots);
      mutex = v.mutex;
      front = v.front;
      back = v.back;
      wrote = tt;
      read = v.read;
      history = v.history;
    })
  ]
  enqueue_step-Inv (Producer.wait_mutex fd) q v = elim (Bool-cases (q.mutex == 0)) [
    | inl e ↦ rw e tt
    | inr e ↦ rw e (record {
      slots = v.slots;
      mutex = ground (arith, v.mutex);
      front = v.front;
      back = v.back;
      wrote = tt;
      read = v.read;
      history = v.history;
    })
  ]
  enqueue_step-Inv (Producer.store fd) q v = record {
    slots = v.slots;
    mutex = v.mutex;
    front = v.front;
    back = v.back;
    wrote = ground arith;
    read = outside w q.d _ q.front (omega (arith, v.mutex)) v.read;
    history =
        rw
          (window-put q.d fd (q.items + 0 + w_left w) q.front q.back v.front
            (omega (arith, v.slots, w_left-le)) v.back)
          v.history;
  }
  enqueue_step-Inv (Producer.step_back fd) q v = record {
    slots = v.slots;
    mutex = v.mutex;
    front = v.front;
    back = omega (arith, v.back);
    wrote = tt;
    read = v.read;
    history = rw append-nil (
        v.history
        ∙ ap (λ l. taken ++ (w_has w ++ l))
            (window-grow q.d (q.items + 1 + w_left w) (q.items + 0 + w_left w) q.front q.back fd
              v.front (omega arith) v.back v.wrote));
  }
  enqueue_step-Inv Producer.post_mutex q v = record {
    slots = v.slots;
    mutex = omega (arith, v.mutex);
    front = v.front;
    back = v.back;
    wrote = tt;
    read = v.read;
    history = v.history;
  }
  enqueue_step-Inv Producer.post_items q v = record {
    slots = omega (arith, v.slots);
    mutex = v.mutex;
    front = v.front;
    back = omega (arith, v.back);
    wrote = tt;
    read = v.read;
    history =
        let e : q.items + 1 + 0 + w_left w ≡ q.items + 1 + w_left w = omega arith in rw e v.history;
  }
