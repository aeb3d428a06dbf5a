-- ===== src/Queue/Interface/Limited.antt =====
-- RateLimitedQueue keeps the promises of the interface.
use rjq.Common.{
  ℕ, zero, suc, Bool, true, false, none, some, List, [], ◌∷◌, ◌≡◌, refl, sym, ap, ◌∙◌, subst, inl,
  inr, if◌then◌else◌, ltb, length, Bool-cases,
}
use rjq.Common.Monad.{Result, err}
use rjq.Models.{Job}
use rjq.Errors.{Error, text}
use rjq.Storage.Rows.Laws.{ids}
use rjq.Storage.Interface.{Storage}
use rjq.Storage.Contract.{Contract}
use rjq.Queue.Delivery.{Backed, on_queue, set_queue}
use rjq.Queue.Delivery.Keeps.{AllSafe, all_safe}
use rjq.Queue.Memory.{MemoryQueue, receive}
use rjq.Queue.Memory
use rjq.Queue.RateLimited.{
  RateLimitedQueue, Delivery, delivered, nothing, blocked, holding, refills, refill, take_token,
  promoted,
}
use rjq.Queue.RateLimited
use rjq.Queue.Interface.{closed_with, rate_limited_queue}
use rjq.Queue.Interface.Channels.{Takes, receive-Takes, enqueue-Enqueues, close-jobs, close-refuses}
use rjq.Queue.Interface.Promises.{Promises, Enqueues, Delivers}

promoted-Enqueues :
    (job : Job) (q : RateLimitedQueue)
    → let x = promoted (Memory.enqueue job) q in
      Enqueues (length q.memory.jobs) x.0 (length x.1.memory.jobs)
promoted-Enqueues job q = enqueue-Enqueues job q.memory

abbrev Counts : ℕ → Delivery × RateLimitedQueue → Type 0
Counts n x = Delivers n x.0 (length x.1.memory.jobs)

refill-memory : (q : RateLimitedQueue) → (refill q).memory ≡ q.memory
unfolding refill
refill-memory q = elim (Bool-cases q.stopped) [
  | inl e ↦ rw e refl
  | inr e ↦
      rw e (elim (Bool-cases (ltb q.tokens q.burst)) [ inl f ↦ rw f refl | inr f ↦ rw f refl ])
]

refills-memory : (n : ℕ) (q : RateLimitedQueue) → (refills n q).memory ≡ q.memory
unfolding refills
refills-memory zero q = refl
refills-memory (suc n) q = refills-memory n (refill q) ∙ refill-memory q

-- A job that has been received is one less, also while it waits for a token.
take_token-Counts :
    (n : ℕ) (job : Job) (sleeps : List ℕ) (q : RateLimitedQueue)
    → n ≡ suc (length q.memory.jobs)
    → Counts n (take_token job sleeps q)
unfolding take_token
take_token-Counts n job [] q h = elim (Bool-cases (ltb 0 q.tokens)) [
  | inl e ↦ rw e h
  | inr e ↦ rw e h
]
take_token-Counts n job (ticks ∷ sleeps) q h = elim (Bool-cases (ltb 0 q.tokens)) [
  | inl e ↦ rw e h
  | inr e ↦ rw e (
      take_token-Counts n job sleeps (refills ticks q)
        (h ∙ ap (λ (m : MemoryQueue). suc (length m.jobs)) (sym (refills-memory ticks q))))
]

spend-Counts :
    (n : ℕ) (sleeps : List ℕ) (q : RateLimitedQueue) (x : Memory.Received × MemoryQueue)
    → Takes n x
    → Counts n (RateLimited.spend sleeps q x)
spend-Counts n sleeps q (Memory.got job, m) h =
    take_token-Counts n job sleeps (record q { memory = m }) h
spend-Counts n sleeps q (Memory.shut, m) h = h
spend-Counts n sleeps q (Memory.blocks, m) h = h

dequeue-Counts :
    (sleeps : List ℕ) (q : RateLimitedQueue)
    → Counts (length q.memory.jobs) (RateLimited.dequeue sleeps q)
unfolding RateLimited.dequeue
dequeue-Counts sleeps q =
    spend-Counts (length q.memory.jobs) sleeps q (receive q.memory) (receive-Takes q.memory)

pub wait-Counts :
    (expired : Bool) (sleeps : List ℕ) (q : RateLimitedQueue)
    → Counts (length q.memory.jobs) (RateLimited.dequeue_or_wait expired sleeps q)
unfolding RateLimited.dequeue_or_wait
wait-Counts true sleeps q = refl
wait-Counts false sleeps q = go (RateLimited.dequeue sleeps q) (dequeue-Counts sleeps q)
  where
    go :
        (x : Delivery × RateLimitedQueue)
        → Counts (length q.memory.jobs) x
        → Counts (length q.memory.jobs) (RateLimited.timed x)
    go (delivered job, r) h = h
    go (nothing, r) h = h
    go (blocked, r) h = h
    go (holding job, r) h = h

-- What `Close` comes to where it does not panic.
closed_lem :
    (q : RateLimitedQueue) (s t : Backed RateLimitedQueue)
    → closed_with s (RateLimited.close q) ≡ some t
    → t ≡ record s { queue = record q { stopped = true; memory = Memory.close q.memory } }
unfolding RateLimited.close
closed_lem q s t = go q.stopped
  where
    go :
        (b : Bool)
        → closed_with s
            (if b then none else some (record q { stopped = true; memory = Memory.close q.memory }))
          ≡ some t
        → t ≡ record s { queue = record q { stopped = true; memory = Memory.close q.memory } }
    go true h = cc
    go false h = cc

pub rate_limited_queue-Promises :
    (store : Storage) (c : Contract store)
    → Promises (rate_limited_queue store) (λ s. ids s.db.rows) (λ v. Unit {0}) (λ w. Unit {0})
unfolding rate_limited_queue
rate_limited_queue-Promises store c =
    let safe : AllSafe (λ q. Unit {0}) store c Memory.enqueue (λ job q p. tt) =
      all_safe (λ q. Unit {0}) store c Memory.enqueue (λ job q p. tt) in
    let inner : Backed RateLimitedQueue → Backed MemoryQueue =
      λ s. record { db = s.db; queue = s.queue.memory } in
    record {
      enqueues = λ job s. promoted-Enqueues job s.queue;
      dequeues = λ sleeps s h. dequeue-Counts sleeps s.queue;
      waits = λ w s h. wait-Counts w.0 w.1 s.queue;
      drains = λ s t e.
          ap (λ (u : Backed RateLimitedQueue). length u.queue.memory.jobs)
            (closed_lem s.queue s t e)
          ∙ ap length (close-jobs s.queue.memory);
      refuses = λ s t job e. (
        text "queue is closed",
        subst (λ u. on_queue (promoted (Memory.enqueue job)) u ≡ (err (text "queue is closed"), u))
            (sym (closed_lem s.queue s t e))
            (ap
              (λ (x : Result Error (Unit {0}) × MemoryQueue).
                set_queue s.db (x.0, record (s.queue) { stopped = true; memory = x.1 }))
              (close-refuses job s.queue.memory)),
      );
      ack_keeps = λ id now s. (safe.ack_safe id now (inner s)).rows;
      nack_keeps = λ id now s. (safe.nack_safe id now (inner s)).rows;
      set_processing_keeps = λ id now s. (safe.set_processing_safe id now (inner s)).rows;
      requeue_keeps = λ id now s. (safe.requeue_safe id now (inner s)).rows;
      retry_keeps = λ id extra now s. (safe.retry_safe id extra now (inner s)).rows;
    }
