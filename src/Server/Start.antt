-- ===== src/Server/Start.antt =====
-- What `main` comes to before the recovery.
use rjq.Common.{String, Bool, Option, none, some, ◌≡◌, refl, sym, subst, ◌⊎◌, inl, inr}
use rjq.Common.Monad.{Result, ok, err}
use rjq.Errors.{Error, wrap}
use rjq.Config.{Config, load_config}
use rjq.Config.Checks.{Positive, Loads, load_config-Loads}
use rjq.Storage.Database.{Database}
use rjq.Worker.{System, start}
use rjq.Server.{
  count_of, new_system, Started, fatal, panicked, launched, launching, opened, loaded, source,
  start_server,
}
use rjq.Storage.Open.{Source, IsReachable, opened_db, Opens, open_storage, open_storage-Opens}
use rjq.Server.Build.{InRange, Built, new_system-Built}
use rjq.Server.Invariant.{Sound}

-- What `main` comes to, with the database that its settings name.
unfoldable pub Starts :
    Bool → Option Config → (postgres_at sqlite_at : String → Source) → Started → Type 0
Starts read decoded postgres_at sqlite_at (launched cfg s) =
    (load_config read decoded ≡ ok cfg)
    × IsReachable (source postgres_at sqlite_at cfg)
    × InRange cfg.rate_limit.emails_per_minute
    × (s.pool ≡ start (count_of cfg.queue.workers))
    × Sound s
    × (s.router.db ≡ opened_db (source postgres_at sqlite_at cfg))
Starts read decoded postgres_at sqlite_at panicked =
    (cfg : Config) × (load_config read decoded ≡ ok cfg)
    × IsReachable (source postgres_at sqlite_at cfg)
    × (¬ InRange cfg.rate_limit.emails_per_minute)
Starts read decoded postgres_at sqlite_at (fatal e) =
    ((e' : Error) × (load_config read decoded ≡ err e') × (e ≡ wrap "Failed to load config" e'))
    ⊎ ((cfg : Config) × (e' : Error) × (load_config read decoded ≡ ok cfg)
        × (open_storage (source postgres_at sqlite_at cfg) ≡ err e')
        × (¬ IsReachable (source postgres_at sqlite_at cfg))
        × (e ≡ wrap "Failed to initialize storage" e'))

module _ (read : Bool) (decoded : Option Config) (postgres_at sqlite_at : String → Source) where
  abbrev named : Config → Source
  named cfg = source postgres_at sqlite_at cfg

  launching-Starts :
      (cfg : Config) (o : Option System)
      → load_config read decoded ≡ ok cfg
      → IsReachable (named cfg)
      → Built cfg (opened_db (named cfg)) o
      → Starts read decoded postgres_at sqlite_at (launching cfg o)
  unfolding Starts Built
  launching-Starts cfg none l o b = (cfg, l, o, b)
  launching-Starts cfg (some s) l o b = (l, o, b.0, b.3, b.1, b.2)

  opened-Starts :
      (cfg : Config) (x : Result Error Database)
      → load_config read decoded ≡ ok cfg
      → Positive cfg.queue.workers
      → open_storage (named cfg) ≡ x
      → Opens (named cfg) x
      → Starts read decoded postgres_at sqlite_at (opened cfg x)
  unfolding Starts
  opened-Starts cfg (err e) l w h o = inr (cfg, e, l, h, o, refl)
  opened-Starts cfg (ok db) l w h o =
      subst (λ d. Starts read decoded postgres_at sqlite_at (opened cfg (ok d))) (sym o.1)
        (launching-Starts cfg (new_system cfg (opened_db (named cfg))) l o.0
          (new_system-Built cfg (opened_db (named cfg)) w.0 w.1))

  pub start_server-Starts :
      Starts read decoded postgres_at sqlite_at (start_server read decoded postgres_at sqlite_at)
  unfolding start_server Starts
  start_server-Starts = go (load_config read decoded) refl (load_config-Loads read decoded)
    where
      go :
          (x : Result Error Config)
          → load_config read decoded ≡ x
          → Loads read decoded x
          → Starts read decoded postgres_at sqlite_at (loaded postgres_at sqlite_at x)
      go (err e) l h = inl (e, l, refl)
      go (ok cfg) l h =
          opened-Starts cfg (open_storage (named cfg)) l h.2.1 refl (open_storage-Opens (named cfg))
