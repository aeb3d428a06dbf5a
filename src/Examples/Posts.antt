-- ===== src/Examples/Posts.antt =====
-- A letter from the request that posts it to the one that asks for it.
use rjq.Common.{true, pos, none, some, List, [], ◌∷◌, ◌≡◌, refl, get_elem?}
use rjq.Models.{Job}
use rjq.Storage.Database.{Driver}
use rjq.Storage.Sqlite.{sqlite}
use rjq.Storage.Sqlite.Scan.{scan_job}
use rjq.Storage.Sqlite.Updates.{save_job}
use rjq.Storage.RoundTrip.{Encodes, Fresh}
use rjq.Worker.{System, Slot, idle, leave_job, change_slot}
use rjq.Email.{Conversation, finishes}
use rjq.Api.{Request, respond, one, new_job, create_job, get_job}
use rjq.Server.Jobs.{process_job}
use rjq.Server.Posting.{LeavesAlone, Reports, create_job-Reports}
use rjq.Examples.Fixtures.{driver, db-Healthy, system}
use rjq.Examples.Settings.{processor, letter, conversation}

-- A codec for one letter.
abbrev codec : Driver
codec = record driver { marshal = λ p. some "letter"; unmarshal = λ text. some letter.payload }

abbrev before_post : System
before_post = record system {
  router = record (system.router) { db = record (system.router.db) { driver = codec } };
}

abbrev post : Request
post = record { job_type = "email"; payload = letter.payload; queue = "fifo"; priority = pos 1 }

abbrev willing : Conversation
willing = record conversation { server = record { answers = λ n. true; offers_tls = true } }

post-Fresh : Fresh (new_job post "d" 40) before_post.router.db
post-Fresh = record { healthy = db-Healthy; fresh = refl }

post-Encodes : Encodes codec (new_job post "d" 40).payload "letter"
post-Encodes = record { marshals = refl; written = refl; unmarshals = refl }

-- Meanwhile the other worker clears its slot.
other_leaves : LeavesAlone scan_job "d" 0 (leave_job 1)
unfolding leave_job
other_leaves = record { row = λ r j u h. h; slot = λ x u h. first_slot x u.pool.slots h }
  where
    first_slot :
        (x : Slot) (xs : List Slot)
        → get_elem? xs 0 ≡ some x
        → get_elem? (change_slot (λ y. record y { current = none }) (get_elem? xs 1) 1 xs) 0
          ≡ some x
    first_slot x [] h = h
    first_slot x (y ∷ []) h = h
    first_slot x (y ∷ z ∷ ys) h = h

free :
    get_elem? (leave_job 1 (create_job sqlite (some post) "d" 40 before_post).1).pool.slots 0
    ≡ some idle
unfolding create_job save_job leave_job
free = refl

create_job-Reports_example :
    let t = leave_job 1 (create_job sqlite (some post) "d" 40 before_post).1 in
    let (t', said') =
      process_job sqlite processor 0
        (new_job post "d" 40)
        finishes
        finishes
        (leave_job 1)
        60
        70
        (t, willing) in
    (j : Job) × ((get_job sqlite "d" t').0 ≡ respond 200 (one j))
    × Reports processor (new_job post "d" 40) finishes finishes j willing said'
create_job-Reports_example =
    create_job-Reports processor post "d" "letter" 0 40 60 70 finishes finishes before_post idle
      willing (leave_job 1) (leave_job 1) refl post-Fresh post-Encodes free other_leaves
      other_leaves
