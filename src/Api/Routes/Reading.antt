-- ===== src/Api/Routes/Reading.antt =====
-- A GET changes nothing.
use rjq.Common.{
  ℕ, suc, String, Bool, true, false, Option, none, some, List, [], ◌∷◌, ◌≡◌, refl, ap, ◌∙◌, inl,
  inr, if◌then◌else◌, str_eq, Bool-cases,
}
use rjq.Common.Monad.{Result, ok, err, Method}
use rjq.Models.{Job, queue_type_fifo, queue_type_priority, queue_type_rate_limited}
use rjq.Errors.{Error}
use rjq.Storage.Database.{Database, tick}
use rjq.Storage.Interface.{Storage}
use rjq.Worker.{System}
use rjq.Metrics.{collect}
use rjq.Api.{
  Request, Response, Body, many, on_store, answer, or_empty, got, stats_of, stats_found, get_job,
  get_stats, get_health, list_jobs, get_processing, get_pending, get_pending_fifo,
  get_pending_priority, get_pending_rate_limited, get_counts,
}
use rjq.Api.Routes.{
  get, Route, creating, getting, retrying, stats, health, listing, dashboard, processing, pending,
  metrics, counts, elsewhere, pending_fifo, pending_priority, pending_rate_limited, top_route,
  pending_route, route, serve,
}

-- The same system, but for the number of calls of the driver.
abbrev pub after_calls : ℕ → System → System
after_calls n s = record s {
  router = record (s.router) { db = record (s.router.db) { calls = n } };
}

abbrev pub IsSame : System → System → Type 0
IsSame s t = (n : ℕ) × (t ≡ after_calls n s)

abbrev pub IsReading : Route → Type 0
IsReading creating = ⊥
IsReading (retrying i) = ⊥
IsReading _ = Unit {0}

-- The methods that read the table make one call of the driver, and no more.
abbrev pub Asks : {A : Type 0} → Method Database Error A → Type 0
Asks m = (db : Database) → (m db).1 ≡ tick db

pub record AsksOnce (store : Storage) : Type 0 where
  pub job : (id : String) → Asks (store.get_job id)
  pub pending_jobs : Asks store.list_pending_jobs
  pub recent_jobs : (limit : ℕ) → Asks (store.list_recent_jobs limit)
  pub processing_jobs : Asks store.get_processing_jobs
  pub all_pending_jobs : Asks store.list_all_pending_jobs
  pub pending_by_queue : (q : String) → Asks (store.list_pending_by_queue q)
  pub group_counts : Asks store.count_by_queue_and_status

if-IsReading : (b : Bool) (r t : Route) → IsReading r → IsReading t → IsReading (if b then r else t)
if-IsReading true r t h k = h
if-IsReading false r t h k = k

pending_route-IsReading : (b : String) → IsReading (pending_route b)
pending_route-IsReading b =
    if-IsReading (str_eq b "fifo") _ _ tt
      (if-IsReading (str_eq b "priority") _ _ tt (if-IsReading (str_eq b "rate-limited") _ _ tt tt))

top_route-IsReading : (a : String) → IsReading (top_route a)
top_route-IsReading a = if-IsReading (str_eq a "stats") _ _ tt (
    if-IsReading (str_eq a "health") _ _ tt (
      if-IsReading (str_eq a "jobs") _ _ tt (
        if-IsReading (str_eq a "dashboard") _ _ tt (
          if-IsReading (str_eq a "processing") _ _ tt (
            if-IsReading (str_eq a "pending") _ _ tt (
              if-IsReading (str_eq a "counts") _ _ tt
                (if-IsReading (str_eq a "metrics") _ _ tt tt)))))))

route_get-IsReading : (path : List String) → IsReading (route get path)
unfolding route
route_get-IsReading [] = tt
route_get-IsReading (a ∷ []) = top_route-IsReading a
route_get-IsReading (a ∷ b ∷ []) =
    if-IsReading (str_eq a "jobs") _ _ tt
      (if-IsReading (str_eq a "pending") _ _ (pending_route-IsReading b) tt)
route_get-IsReading (a ∷ b ∷ c ∷ path) = tt

-- A handler that makes one call, and only answers then.
asked :
    {A : Type 0} (m : Method Database Error A) (k : Result Error A × System → Response × System)
    → ((x : Result Error A) (t : System) → (k (x, t)).1 ≡ t)
    → Asks m
    → (s : System) → IsSame s (k (on_store m s)).1
asked m k h a s = (
  suc s.router.db.calls,
  h (m s.router.db).0 (on_store m s).1
      ∙ ap (λ db. record s { router = record (s.router) { db = db } }) (a s.router.db),
)

answer-same :
    {A : Type 0} (msg : String) (f : A → Body) (x : Result Error A) (t : System)
    → (answer msg f (x, t)).1 ≡ t
answer-same msg f (ok a) t = refl
answer-same msg f (err e) t = refl

answered :
    {A : Type 0} (msg : String) (f : A → Body) (m : Method Database Error A)
    → Asks m
    → (s : System) → IsSame s (answer msg f (on_store m s)).1
answered msg f m a s = asked m (answer msg f) (answer-same msg f) a s

or_empty-same : (x : Result Error (List Job)) (t : System) → (or_empty (x, t)).1 ≡ t
or_empty-same (ok js) t = refl
or_empty-same (err e) t = refl

collect-Asks : (db : Database) → (collect db).1 ≡ tick db
unfolding collect
collect-Asks db = elim (Bool-cases (db.driver.answers db.calls)) [
  | inl e ↦ simp e refl
  | inr e ↦ simp e refl
]

module _ (store : Storage) (c : AsksOnce store) where
  got-same : (x : Result Error (Option Job)) (t : System) → (got store (x, t)).1 ≡ t
  got-same (ok none) t = refl
  got-same (ok (some j)) t = refl
  got-same (err e) t = refl

  stats_of-same :
      (js : List Job) (x : Result Error (List Job)) (t : System) → (stats_of store js (x, t)).1 ≡ t
  stats_of-same js (ok ks) t = refl
  stats_of-same js (err e) t = refl

  get_stats-IsSame : (s : System) → IsSame s (get_stats store s).1
  unfolding get_stats
  get_stats-IsSame s = go (store.list_pending_jobs s.router.db) (c.pending_jobs s.router.db)
    where
      go :
          (x : Result Error (List Job) × Database)
          → x.1 ≡ tick s.router.db
          → IsSame s
              (stats_found store (x.0, record s { router = record (s.router) { db = x.1 } })).1
      go (err e, db) h =
          (suc s.router.db.calls, ap (λ db. record s { router = record (s.router) { db = db } }) h)
      go (ok js, db) h =
          let t : System = record s { router = record (s.router) { db = db } } in
          let (n, e) =
            asked store.get_processing_jobs (stats_of store js) (stats_of-same js) c.processing_jobs
              t in
          (
            n,
            e
                ∙ ap
                    (λ db. record s { router = record (s.router) { db = record db { calls = n } } })
                    h,
          )

  pub serve-IsSame :
      (reply : Response) (r : Route) (body : Option Request) (id : String) (now : ℕ) (s : System)
      → IsReading r
      → IsSame s (serve store reply r body id now s).1
  unfolding serve get_job get_health list_jobs get_processing get_pending get_pending_fifo
      get_pending_priority get_pending_rate_limited get_counts
  serve-IsSame reply creating body id now s h = absurd h
  serve-IsSame reply (retrying i) body id now s h = absurd h
  serve-IsSame reply (getting i) body id now s h =
      asked (store.get_job i) (got store) got-same (c.job i) s
  serve-IsSame reply stats body id now s h = get_stats-IsSame s
  serve-IsSame reply health body id now s h = (s.router.db.calls, refl)
  serve-IsSame reply listing body id now s h =
      answered "failed to list jobs" many (store.list_recent_jobs 20) (c.recent_jobs 20) s
  serve-IsSame reply dashboard body id now s h = (s.router.db.calls, refl)
  serve-IsSame reply processing body id now s h =
      answered "failed to get processing jobs" many store.get_processing_jobs c.processing_jobs s
  serve-IsSame reply pending body id now s h =
      answered "failed to get pending jobs" many store.list_all_pending_jobs c.all_pending_jobs s
  serve-IsSame reply metrics body id now s h = (
    suc s.router.db.calls,
    ap (λ db. record s { router = record (s.router) { db = db } }) (collect-Asks s.router.db),
  )
  serve-IsSame reply counts body id now s h =
      answered "failed to count jobs" Body.counts store.count_by_queue_and_status c.group_counts s
  serve-IsSame reply elsewhere body id now s h = (s.router.db.calls, refl)
  serve-IsSame reply pending_fifo body id now s h =
      asked (store.list_pending_by_queue queue_type_fifo) or_empty or_empty-same
        (c.pending_by_queue queue_type_fifo) s
  serve-IsSame reply pending_priority body id now s h =
      asked (store.list_pending_by_queue queue_type_priority) or_empty or_empty-same
        (c.pending_by_queue queue_type_priority) s
  serve-IsSame reply pending_rate_limited body id now s h =
      asked (store.list_pending_by_queue queue_type_rate_limited) or_empty or_empty-same
        (c.pending_by_queue queue_type_rate_limited) s

  -- Whatever a GET asks for and whatever the driver answers, on a storage whose reading methods make one
  -- call of the driver, as both backends do: no row, queue or worker changes, and nothing is different but the number of statements that the driver was given.
  pub serve_get-IsSame :
      (reply : Response) (path : List String) (body : Option Request) (id : String) (now : ℕ)
      (s : System)
      → IsSame s (serve store reply (route get path) body id now s).1
  serve_get-IsSame reply path body id now s =
      serve-IsSame reply (route get path) body id now s (route_get-IsReading path)
