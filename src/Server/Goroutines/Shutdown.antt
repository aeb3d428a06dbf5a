-- ===== src/Server/Goroutines/Shutdown.antt =====
-- The end of the pool: once it is stopped, its workers can still end, whatever they do.
use rjq.Common.{ℕ, true, [], ◌≡◌}
use rjq.Storage.Interface.{Storage}
use rjq.Storage.Contract.{Contract}
use rjq.Api.Routes.Reading.{AsksOnce}
use rjq.Worker.Lives.{gone}
use rjq.Server.Goroutines.{Machine}
use rjq.Server.Goroutines.Ranks.{NoneAsks}

-- The pool was stopped, and no worker asks for a rate-limited job.
abbrev IsStopped : Machine → Type 0
IsStopped m = (m.system.pool.done ≡ true) × NoneAsks m.phases

module _ (store : Storage) (c : Contract store) (asks : AsksOnce store) (count : ℕ) where
  -- No goroutine of the pool is left, and the counter says so.
  pub record Ended (n : Machine) : Type 0 where
    pub none_alive : n.system.pool.alive ≡ 0
    pub none_running : n.running ≡ []
    pub none_starting : n.starting ≡ 0
    pub none_leaving : n.leaving ≡ 0
    pub unsupervised : n.supervisor ≡ gone
