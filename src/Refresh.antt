-- ===== src/Refresh.antt =====
-- lib/refresh-queue.ts: the request for a refresh of the postings, and the one runner that claims it. A statement is one
-- step on the table, so that others may act between two statements of a function. Instants are milliseconds.
use job_dashboard.Prelude.{
  ℕ, zero, suc, ◌+◌, ◌==◌, ltb, String, Bool, true, false, not, ◌&&◌, ◌||◌, Option, none, some,
  is_some, holds, same, List, [], ◌∷◌, ◌++◌, any, find, select, update_where, if◌then◌else◌,
}
pub mod Claims
pub mod Cycles
pub mod Tests

-- A row of the table `refresh_requests` (lib/db/schema.ts).
pub record RefreshRequest : Type 0 where
  pub id : ℕ
  pub requested_by : Option String
  pub requested_at : ℕ
  pub claimed_at : Option ℕ
  pub completed_at : Option ℕ
  pub error : Option String

-- The table, with the next id that it gives out.
pub record Queue : Type 0 where
  pub rows : List RefreshRequest
  pub next_id : ℕ

abbrev pub claim_timeout_ms : ℕ
claim_timeout_ms = 7800000

-- `completed_at is null`, which the unique index `refresh_requests_active_idx` allows once.
unfoldable pub is_active : RefreshRequest → Bool
is_active r = not (is_some r.completed_at)

-- Nobody is acting on the request, or its claimer went away.
unfoldable pub is_pending : ℕ → RefreshRequest → Bool
unfolding is_active
is_pending now r =
    is_active r
    && (not (is_some r.claimed_at) || holds (λ at. ltb (at + claim_timeout_ms) now) r.claimed_at)

-- `order by requested_at limit 1`
unfoldable pub oldest : List RefreshRequest → Option RefreshRequest
oldest [] = none
oldest (r ∷ rest) = earlier r (oldest rest)
  where
    earlier : RefreshRequest → Option RefreshRequest → Option RefreshRequest
    earlier r none = some r
    earlier r (some s) = if ltb s.requested_at r.requested_at then some s else some r

unfoldable pub pending_request : ℕ → Queue → Option RefreshRequest
pending_request now q = oldest (select (is_pending now) q.rows)

unfoldable pub queued : Option String → ℕ → ℕ → RefreshRequest
queued by now id = record {
  id = id;
  requested_by = by;
  requested_at = now;
  claimed_at = none;
  completed_at = none;
  error = none;
}

-- `insert ... on conflict do nothing returning`
unfoldable pub insert_request : Option String → ℕ → Queue → Option RefreshRequest × Queue
insert_request by now q = if any is_active q.rows then (none, q) else (
  some (queued by now q.next_id),
  record { rows = queued by now q.next_id ∷ q.rows; next_id = suc q.next_id },
)

pub record Asked : Type 0 where
  pub request : RefreshRequest
  pub queued : Bool

-- The second statement of `requestRefresh`: the active request, or what a new attempt gives.
unfoldable pub join : Queue → Option Asked × Queue → Option RefreshRequest → Option Asked × Queue
join q again none = again
join q again (some active) = (some (record { request = active; queued = false }), q)

unfoldable pub asked_or :
    Queue → Option Asked × Queue → Option RefreshRequest → Option Asked × Queue
asked_or q joined none = joined
asked_or q joined (some row) = (some (record { request = row; queued = true }), q)

-- `requestRefresh`, which starts again where the active request was finished between its two statements. What others do
-- between them in each attempt is an argument; attempts are bounded by fuel.
unfoldable pub request_refresh :
    (fuel : ℕ) → (ℕ → Queue → Queue) → Option String → ℕ → Queue → Option Asked × Queue
request_refresh zero between by now q = (none, q)
request_refresh (suc fuel) between by now q =
    let others = between fuel (insert_request by now q).1 in
    let again = request_refresh fuel between by now others in
    asked_or (insert_request by now q).1 (join others again (find is_active others.rows))
      (insert_request by now q).0

-- The row as it was read, and still active.
unfoldable pub unchanged : RefreshRequest → RefreshRequest → Bool
unfolding is_active
unchanged waiting r = r.id == waiting.id && is_active r && same r.claimed_at waiting.claimed_at

unfoldable pub claimed : ℕ → RefreshRequest → RefreshRequest
claimed now r = record r { claimed_at = some now }

unfoldable pub take_row :
    RefreshRequest → ℕ → Queue → Option RefreshRequest → Option RefreshRequest × Queue
take_row waiting now q none = (none, q)
take_row waiting now q (some row) = (
  some (claimed now row),
  record q { rows = update_where (unchanged waiting) (claimed now) q.rows },
)

-- The second statement of `claimRequest`: the request that was read is claimed unless another claimed it since.
unfoldable pub take : RefreshRequest → ℕ → Queue → Option RefreshRequest × Queue
take waiting now q = take_row waiting now q (find (unchanged waiting) q.rows)

unfoldable pub claim_read :
    (Queue → Queue) → ℕ → Queue → Option RefreshRequest → Option RefreshRequest × Queue
claim_read between now q none = (none, q)
claim_read between now q (some waiting) = take waiting now (between q)

-- `claimRequest`; what others do between its statements is an argument.
unfoldable pub claim_request : (Queue → Queue) → ℕ → Queue → Option RefreshRequest × Queue
claim_request between now q = claim_read between now q (pending_request now q)

-- The row of the claim, which still holds it.
unfoldable pub held : RefreshRequest → ℕ → RefreshRequest → Bool
unfolding is_active
held claim at r = r.id == claim.id && same r.claimed_at (some at) && is_active r

unfoldable pub finished : Option String → ℕ → RefreshRequest → RefreshRequest
finished error now r = record r { completed_at = some now; error = error }

unfoldable pub finish_claim : RefreshRequest → Option String → ℕ → Queue → Option ℕ → Option Queue
finish_claim claim error now q none = none
finish_claim claim error now q (some at) =
    some (record q { rows = update_where (held claim at) (finished error now) q.rows })

-- `finishRequest`; none where it throws, the claim having never been made.
unfoldable pub finish_request : RefreshRequest → Option String → ℕ → Queue → Option Queue
finish_request claim error now q = finish_claim claim error now q claim.claimed_at
