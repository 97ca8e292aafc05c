-- ===== src/Application/Effects/Leases.antt =====
-- lib/applications/leases.ts and events.ts: what becomes of a lease that ran out, and of one that was lost.
use job_dashboard.Prelude.{
  ℕ, ◌<◌, ◌≡◌, refl, sym, ap, subst, true, false, ◌&&◌, none, some, List, find, update_where, arith,
}
use job_dashboard.Application.State.{is_terminal_state}
use job_dashboard.Application.Requests.{LeaseRef, EventRequest}
use job_dashboard.Application.Rows.{Worker, Application, Db, Env}
use job_dashboard.Application.Tx.{
  lease_lost, Failure, worker_error, done, denied, thrown, M, ◌>>=◌, deny, event_key, current,
  app_scope, update_application, write_application, one, checks_hold, triggers_allow, tenant_free,
}
use job_dashboard.Application.WorkerStore.{released, release_application, live_run}
use job_dashboard.Application.Leases.{
  assigned, lease_matches, lease_in_time, settle_lease, checked_lease,
}
use job_dashboard.Application.Events.{
  check_event, advanced, acknowledge, fresh_event, answer_event, record_event,
}
use job_dashboard.Application.Safety.Evolution.{IsIn}
use job_dashboard.Application.Safety.Keys.{
  one_current, Distinct, Distinct-Evolved, partner, same_row,
}
use job_dashboard.Application.Safety.Rules.{find-IsIn, find_holds}
use job_dashboard.Application.Safety.History.{Request, serve_all, serve_all-Evolved}
use job_dashboard.Application.Effects.Rules.{bind_done}
use job_dashboard.Application.Effects.Events.{event_ref}
use job_dashboard.Application.Effects.Replays.{record_event-stale}

-- The database in which the row has been released.
abbrev pub after_release : Application → Db → Db
after_release row db = record db {
  applications = update_where (current row) (released "lease_lost" row) db.applications;
}

bind_denied :
    {A B : Type 0} (m : M A) (f : A → M B) (db db' : Db) (e : Failure)
    → m db ≡ denied e db'
    → (m >>= f) db ≡ denied e db'
bind_denied m f db db' e h =
    ap (λ o. elim o [ done a db' ↦ f a db' | denied e db' ↦ denied e db' | thrown e ↦ thrown e ]) h

-- The release of a row never meets a check or a trigger.
release_allowed :
    (row : Application) (xs : List Application)
    → checks_hold row ≡ true
    → (checks_hold (released "lease_lost" row row)
        && triggers_allow row (released "lease_lost" row row)
        && tenant_free (released "lease_lost" row row) xs)
      ≡ true
unfolding checks_hold triggers_allow tenant_free released is_terminal_state
release_allowed row xs h = ground (arith, h)

module _ (env : Env) (worker : Worker) (now : ℕ) (db : Db) (row : Application) where
  release_done :
      Distinct db.applications
      → IsIn row db.applications
      → checks_hold row ≡ true
      → release_application row "lease_lost" db
        ≡ done (released "lease_lost" row row) (after_release row db)
  unfolding release_application update_application one write_application
  release_done d m c =
      rw (one_current row db.applications d m, release_allowed row db.applications c) refl

  given_up :
      Distinct db.applications
      → IsIn row db.applications
      → checks_hold row ≡ true
      → (lease_in_time row now && live_run env row now db) ≡ false
      → settle_lease row (lease_in_time row now && live_run env row now db) db
        ≡ denied (worker_error 409 lease_lost) (after_release row db)
  unfolding settle_lease
  given_up d m c lost = rw lost (
      bind_done (release_application row "lease_lost") (λ _. deny 409 lease_lost) db _ _
        (release_done d m c))

  checked_lease-denied :
      (ref : LeaseRef)
      → Distinct db.applications
      → find (assigned worker ref.application_id) db.applications ≡ some row
      → checks_hold row ≡ true
      → lease_matches row ref ≡ true
      → (lease_in_time row now && live_run env row now db) ≡ false
      → checked_lease env worker ref now db
        ≡ denied (worker_error 409 lease_lost) (after_release row db)
  unfolding checked_lease
  checked_lease-denied ref d found c matches lost =
      rw (found, matches) (given_up d (find-IsIn _ _ row found) c lost)

  -- A new event under a lease that is the row's but has run out, was checked later than now, or whose run is no longer
  -- live is refused with the error that is returned, not thrown: the row, which is one that the table's checks allow and is
  -- alone under its id, stays released, at the next revision and fence and without a lease, and nothing else changes.
  pub record_event-denied :
      (application : ℕ) (command : EventRequest)
      → Distinct db.applications
      → checks_hold row ≡ true
      → find (event_key worker.owner_id application command.event_id) db.events ≡ none
      → find (assigned worker application) db.applications ≡ some row
      → lease_matches row (event_ref application command) ≡ true
      → (lease_in_time row now && live_run env row now db) ≡ false
      → record_event env now application command worker db
        ≡ denied (worker_error 409 lease_lost) (after_release row db)
  unfolding record_event answer_event fresh_event
  record_event-denied application command d c fresh found matches lost =
      rw (found, fresh)
        (bind_denied (checked_lease env worker (event_ref application command) now)
          (λ app. check_event app command >>= λ _.
            update_application (current app) (advanced app command)
            >>= acknowledge env now application command worker)
          db (after_release row db) (worker_error 409 lease_lost)
          (checked_lease-denied (event_ref application command) d found c matches lost))

-- A lease that does not match, of an earlier fence.
earlier_fence :
    (row : Application) (application : ℕ) (command : EventRequest)
    → command.fence < row.fence
    → lease_matches row (event_ref application command) ≡ false
unfolding lease_matches
earlier_fence row application command h = ground (arith, h)

-- A lease that an application has lost is lost for good: once its fence has passed the one of an event, every sequence of
-- polls, heartbeats, events, intents, receipts, run starts and orders and commands leads to a database in which that event,
-- if it is new there and its application is found, is refused and changes nothing.
pub serve_all-stale :
    (env : Env) (rs : List Request) (db : Db) (row later : Application) (worker : Worker) (now : ℕ)
    (command : EventRequest)
    → Distinct db.applications
    → IsIn row db.applications
    → command.fence < row.fence
    → find (event_key worker.owner_id row.id command.event_id) (serve_all env rs db).events ≡ none
    → find (assigned worker row.id) (serve_all env rs db).applications ≡ some later
    → record_event env now row.id command worker (serve_all env rs db)
      ≡ thrown (worker_error 409 lease_lost)
unfolding assigned app_scope
serve_all-stale env rs db row later worker now command d m old fresh found =
    let after = serve_all env rs db in
    let evolved = serve_all-Evolved env rs db d in
    let (b, ev, n) = partner row db.applications after.applications evolved m in
    let holds = find_holds (assigned worker row.id) after.applications later found in
    let same : later ≡ b =
      same_row later b after.applications (Distinct-Evolved _ _ evolved d)
        (find-IsIn _ _ later found) n (ground (arith, holds, ev.same_id)) in
    record_event-stale env now row.id command worker after later fresh found (
      earlier_fence later row.id command (
        subst (λ (a : Application). command.fence < a.fence) (sym same)
          (omega (arith, old, ev.fence_grows))))
