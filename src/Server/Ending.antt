-- ===== src/Server/Ending.antt =====
-- The end of `main` keeps the rows and the bounds of the queues.
use rjq.Common.{true, Option, none, some, ◌≡◌, refl, subst}
use rjq.Queue.Router.{Router}
use rjq.Queue.Router.Sound.Polls.{close-Carries}
use rjq.Queue.Router
use rjq.Worker.{System}
use rjq.Server.{shut_down, stopped}
use rjq.Server.Invariant.{Leads}

some-injective : {a b : System} → some a ≡ some b → a ≡ b
some-injective h = cc

pub shut_down-Leads : (s t : System) → shut_down s ≡ some t → Leads s t
unfolding shut_down
shut_down-Leads s t = go (Router.close s.router) refl
  where
    go : (o : Option Router) → Router.close s.router ≡ o → stopped s o ≡ some t → Leads s t
    go none e h = cc
    go (some r) e h =
        let closed : Leads s (record s { router = r; pool = record (s.pool) { done = true } }) =
          record {
            rows = (close-Carries s.router r e).rows;
            sound = λ p. record {
              queues = (close-Carries s.router r e).sound p.queues;
              slots = p.slots;
            };
          } in
        subst (Leads s) (some-injective h) closed
