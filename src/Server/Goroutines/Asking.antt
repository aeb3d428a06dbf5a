-- ===== src/Server/Goroutines/Asking.antt =====
-- What a worker that has asked the queues comes to.
use rjq.Common.{List, Option, none, some, ◌≡◌, refl, subst, All}
use rjq.Queue.RateLimited.{Delivery, delivered, nothing, blocked, holding}
use rjq.Queue.RateLimited
use rjq.Queue.Router.{Router, Pass, or_fifo}
use rjq.Queue.Router.Sound.{Carries, Carries-trans}
use rjq.Queue.Router.Sound.Waits.{Considerate}
use rjq.Queue.Router.Sound.Polls.{dequeue-Carries, asked-Carries}
use rjq.Server.Goroutines.{Phase, after_delivery, after_round, polled_on, poll_on}
use rjq.Server.Goroutines.Phases.{in_slot, busy_in, lives_in}

some-injective : {p q : Phase} → some p ≡ some q → p ≡ q
some-injective h = cc

-- The worker has no job in its slot, and a goroutine.
abbrev pub IsFree : Phase → Type 0
IsFree p = (in_slot p ≡ none) × (busy_in p ≡ 0) × (lives_in p ≡ 1)

pub after_delivery-IsFree : (d : Delivery) (p : Phase) → after_delivery d ≡ some p → IsFree p
after_delivery-IsFree (delivered job) p h = subst IsFree (some-injective h) (refl, refl, refl)
after_delivery-IsFree nothing p h = subst IsFree (some-injective h) (refl, refl, refl)
after_delivery-IsFree blocked p h = cc
after_delivery-IsFree (holding job) p h = subst IsFree (some-injective h) (refl, refl, refl)

pub after_round-IsFree : (d : Option Delivery) (p : Phase) → after_round d ≡ some p → IsFree p
after_round-IsFree none p h = subst IsFree (some-injective h) (refl, refl, refl)
after_round-IsFree (some d) p h = after_delivery-IsFree d p h

pub poll_on-Carries :
    (p : Pass) (passes : List Pass) (r : Router)
    → All Considerate passes
    → Carries r (poll_on p passes r).1
unfolding poll_on
poll_on-Carries p passes r c =
    go (or_fifo p r (RateLimited.dequeue_or_wait p.rate_expired p.sleeps r.rate_limited))
      (asked-Carries p r)
  where
    go : (x : Delivery × Router) → Carries r x.1 → Carries r (polled_on passes x).1
    go (delivered job, t) h = h
    go (nothing, t) h = Carries-trans r t _ h (dequeue-Carries passes t c)
    go (blocked, t) h = h
    go (holding job, t) h = h
