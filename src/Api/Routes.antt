-- ===== src/Api/Routes.antt =====
-- internal/api/handlers.go: `RegisterRoutes`, and the handler that a request comes to.
pub mod Reading
pub mod Asking
use rjq.Common.{ℕ, String, Option, List, [], ◌∷◌, if◌then◌else◌, str_eq}
use rjq.Storage.Interface.{Storage}
use rjq.Worker.{System}
use rjq.Metrics.{collect}
use rjq.Api.{
  Request, Response, create_job, get_job, get_stats, get_health, list_jobs, get_processing,
  get_pending, get_pending_fifo, get_pending_priority, get_pending_rate_limited, retry_job,
  get_counts,
}

-- The methods of HTTP that routes are registered for, and any other.
pub data Verb : Type 0 where
  get post any : Verb

-- `elsewhere` is a request that no route takes.
pub data Route : Type 0 where
  creating : Route
  getting retrying : (id : String) → Route
  stats health listing dashboard processing pending metrics counts elsewhere : Route
  pending_fifo pending_priority pending_rate_limited : Route

abbrev pub pending_route : String → Route
pending_route b =
    if str_eq b "fifo"
    then pending_fifo
    else if str_eq b "priority"
    then pending_priority
    else if str_eq b "rate-limited"
    then pending_rate_limited
    else elsewhere

abbrev pub top_route : String → Route
top_route a =
    if str_eq a "stats"
    then stats
    else if str_eq a "health"
    then health
    else if str_eq a "jobs"
    then listing
    else if str_eq a "dashboard"
    then dashboard
    else if str_eq a "processing"
    then processing
    else if str_eq a "pending"
    then pending
    else if str_eq a "counts"
    then counts
    else if str_eq a "metrics"
    then metrics
    else elsewhere

-- The routes of `r.Get`, by the segments of the path, and those of `r.Post`. `r.Handle` takes any
-- method.
abbrev pub get_route : List String → Route
get_route [] = elsewhere
get_route (a ∷ []) = top_route a
get_route (a ∷ b ∷ []) =
    if str_eq a "jobs" then getting b else if str_eq a "pending" then pending_route b else elsewhere
get_route (a ∷ b ∷ c ∷ path) = elsewhere

abbrev pub post_route : List String → Route
post_route [] = elsewhere
post_route (a ∷ []) =
    if str_eq a "jobs" then creating else if str_eq a "metrics" then metrics else elsewhere
post_route (a ∷ b ∷ []) = elsewhere
post_route (a ∷ b ∷ c ∷ []) =
    if str_eq a "jobs" then (if str_eq c "retry" then retrying b else elsewhere) else elsewhere
post_route (a ∷ b ∷ c ∷ d ∷ path) = elsewhere

abbrev pub any_route : List String → Route
any_route [] = elsewhere
any_route (a ∷ []) = if str_eq a "metrics" then metrics else elsewhere
any_route (a ∷ b ∷ path) = elsewhere

unfoldable pub route : Verb → List String → Route
route get path = get_route path
route post path = post_route path
route any path = any_route path

-- A scrape, which makes the collector read the table.
abbrev pub scraped : System → System
scraped s =
    let (gauges, db) = collect s.router.db in record s { router = record (s.router) { db = db } }

-- `answer` is what chi, promhttp and the dashboard page answer, where no handler of the API does.
unfoldable pub serve :
    Storage → Response → Route → Option Request → String → ℕ → System → Response × System
unfolding collect
serve store answer creating body id now s = create_job store body id now s
serve store answer (getting i) body id now s = get_job store i s
serve store answer (retrying i) body id now s = retry_job store i now s
serve store answer stats body id now s = get_stats store s
serve store answer health body id now s = get_health store s
serve store answer listing body id now s = list_jobs store s
serve store answer dashboard body id now s = (answer, s)
serve store answer processing body id now s = get_processing store s
serve store answer pending body id now s = get_pending store s
serve store answer metrics body id now s = (answer, scraped s)
serve store answer counts body id now s = get_counts store s
serve store answer elsewhere body id now s = (answer, s)
serve store answer pending_fifo body id now s = get_pending_fifo store s
serve store answer pending_priority body id now s = get_pending_priority store s
serve store answer pending_rate_limited body id now s = get_pending_rate_limited store s
