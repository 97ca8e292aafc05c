-- ===== src/Refresh/Claims.antt =====
-- lib/refresh-queue.ts: there is one active request, and one claimer of it.
use job_dashboard.Prelude.{
  ℕ, suc, ◌≡◌, refl, ◌∙◌, ap, String, Bool, true, false, not, Option, none, some, List, [], ◌∷◌,
  any, find, select, update_where, arith, Bool-cases, inl, inr, length, ◌≤◌, same,
}
use job_dashboard.Refresh.{
  RefreshRequest, Queue, Asked, is_active, is_pending, insert_request, queued, request_refresh,
  asked_or, join, unchanged, claimed, take, take_row, finish_claim, held, finished, finish_request,
}

-- A statement that somebody makes.
pub data Step : Type 0 where
  insert : Option String → (now : ℕ) → Step
  claim : (waiting : RefreshRequest) (now : ℕ) → Step
  finish : (claim : RefreshRequest) → Option String → (now : ℕ) → Step

abbrev after_finish : Queue → Option Queue → Queue
after_finish q none = q
after_finish q (some q') = q'

abbrev pub step : Step → Queue → Queue
step (insert by now) q = (insert_request by now q).1
step (claim waiting now) q = (take waiting now q).1
step (finish c error now) q = after_finish q (finish_request c error now q)

abbrev pub steps : List Step → Queue → Queue
steps [] q = q
steps (s ∷ rest) q = steps rest (step s q)

-- How many requests are active.
abbrev pub active_count : List RefreshRequest → ℕ
active_count rows = length (select is_active rows)

any_active : (rows : List RefreshRequest) → any is_active rows ≡ false → active_count rows ≡ 0
unfolding any select
any_active [] h = refl
any_active (r ∷ rows) h = ground (arith, any_active rows)

claimed_count :
    (p : RefreshRequest → Bool) (now : ℕ) (rows : List RefreshRequest)
    → active_count (update_where p (claimed now) rows) ≡ active_count rows
unfolding select update_where claimed is_active
claimed_count p now [] = refl
claimed_count p now (r ∷ rows) = ground (arith, claimed_count p now rows)

finished_count :
    (p : RefreshRequest → Bool) (error : Option String) (now : ℕ) (rows : List RefreshRequest)
    → active_count (update_where p (finished error now) rows) ≤ active_count rows
unfolding select update_where finished is_active
finished_count p error now [] = omega arith
finished_count p error now (r ∷ rows) = ground (arith, finished_count p error now rows)

insert_count :
    (by : Option String) (now : ℕ) (q : Queue)
    → active_count q.rows ≤ 1
    → active_count (insert_request by now q).1.rows ≤ 1
unfolding insert_request queued is_active select
insert_count by now q h = elim (Bool-cases (any is_active q.rows)) [
  | inl busy ↦ rw busy h
  | inr free ↦ rw free (omega (arith, any_active q.rows free))
]

take_row_count :
    (waiting : RefreshRequest) (now : ℕ) (q : Queue) (found : Option RefreshRequest)
    → active_count q.rows ≤ 1
    → active_count (take_row waiting now q found).1.rows ≤ 1
unfolding take_row
take_row_count waiting now q none h = h
take_row_count waiting now q (some row) h =
    omega (arith, claimed_count (unchanged waiting) now q.rows)

finish_claim_count :
    (c : RefreshRequest) (error : Option String) (now : ℕ) (q : Queue) (claimed_at : Option ℕ)
    → active_count q.rows ≤ 1
    → active_count (after_finish q (finish_claim c error now q claimed_at)).rows ≤ 1
unfolding finish_claim
finish_claim_count c error now q none h = h
finish_claim_count c error now q (some at) h =
    omega (arith, finished_count (held c at) error now q.rows)

step_count : (s : Step) (q : Queue) → active_count q.rows ≤ 1 → active_count (step s q).rows ≤ 1
unfolding take finish_request
step_count (insert by now) q h = insert_count by now q h
step_count (claim waiting now) q h =
    take_row_count waiting now q (find (unchanged waiting) q.rows) h
step_count (finish c error now) q h = finish_claim_count c error now q c.claimed_at h

-- Whatever requests, claims and reports of an end are made, in any order, there is never more than one active request.
pub steps_one_active :
    (ss : List Step) (q : Queue) → active_count q.rows ≤ 1 → active_count (steps ss q).rows ≤ 1
steps_one_active [] q h = h
steps_one_active (s ∷ ss) q h = steps_one_active ss (step s q) (step_count s q h)

find_updated :
    (p : RefreshRequest → Bool) (set : RefreshRequest → RefreshRequest) (rows : List RefreshRequest)
    → ((r : RefreshRequest) → p r ≡ true → p (set r) ≡ false)
    → find p (update_where p set rows) ≡ none
unfolding find update_where
find_updated p set [] h = refl
find_updated p set (r ∷ rows) h = elim (Bool-cases (p r)) [
  | inl hit ↦ rw (hit, h r hit) (find_updated p set rows h)
  | inr miss ↦ rw (miss, miss) (find_updated p set rows h)
]

-- A request that was read as pending at `now` was not claimed at any later instant.
pending_older :
    (waiting : RefreshRequest) (read now : ℕ)
    → is_pending read waiting ≡ true
    → read ≤ now
    → same (some now) waiting.claimed_at ≡ false
unfolding is_pending
pending_older waiting read now h le = ground arith

none_left :
    (waiting : RefreshRequest) (read now : ℕ) (q : Queue)
    → is_pending read waiting ≡ true
    → read ≤ now
    → find (unchanged waiting) (take waiting now q).1.rows ≡ none
unfolding take
none_left waiting read now q h le = go (find (unchanged waiting) q.rows) refl
  where
    taken :
        (r : RefreshRequest)
        → unchanged waiting r ≡ true
        → unchanged waiting (claimed now r) ≡ false
    taken r u = unfold unchanged claimed in (ground (arith, pending_older waiting read now h le))

    go :
        (found : Option RefreshRequest)
        → find (unchanged waiting) q.rows ≡ found
        → find (unchanged waiting) (take_row waiting now q found).1.rows ≡ none
    go none e = unfold take_row in e
    go (some row) e =
        unfold take_row in (find_updated (unchanged waiting) (claimed now) q.rows taken)

-- Two runners that both read a request as pending do not both get it: once one has claimed it, at or after the instant at
-- which it was read, the claim of the other finds it changed and takes nothing.
pub take-take :
    (waiting : RefreshRequest) (read now later : ℕ) (q : Queue)
    → is_pending read waiting ≡ true
    → read ≤ now
    → take waiting later (take waiting now q).1 ≡ (none, (take waiting now q).1)
take-take waiting read now later q h le =
    unfolded (take waiting now q).1 (none_left waiting read now q h le)
  where
    unfolded :
        (q' : Queue) → find (unchanged waiting) q'.rows ≡ none → take waiting later q' ≡ (none, q')
    unfolded q' e = unfold take take_row in (ap (take_row waiting later q') e)

update_no_row :
    (p u : RefreshRequest → Bool) (set : RefreshRequest → RefreshRequest)
    (rows : List RefreshRequest)
    → ((r : RefreshRequest) → p r ≡ true → u r ≡ true)
    → find u rows ≡ none
    → update_where p set rows ≡ rows
unfolding find update_where
update_no_row p u set [] h e = refl
update_no_row p u set (r ∷ rows) h e = ground (arith, h r, update_no_row p u set rows h)

-- The report of a claimer that went away, whose request another has claimed after the time for it, changes nothing.
pub finish_request-take :
    (waiting : RefreshRequest) (error : Option String) (at read now later : ℕ) (q : Queue)
    → waiting.claimed_at ≡ some at
    → is_pending read waiting ≡ true
    → read ≤ now
    → finish_request waiting error later (take waiting now q).1 ≡ some (take waiting now q).1
unfolding finish_request
finish_request-take waiting error at read now later q c h le =
    ap (finish_claim waiting error later (take waiting now q).1) c
    ∙ untouched (take waiting now q).1 (none_left waiting read now q h le)
  where
    same_row : (r : RefreshRequest) → held waiting at r ≡ true → unchanged waiting r ≡ true
    same_row r u = unfold held unchanged is_active in (ground (arith, c))

    untouched :
        (q' : Queue)
        → find (unchanged waiting) q'.rows ≡ none
        → finish_claim waiting error later q' (some at) ≡ some q'
    untouched q' e =
        unfold finish_claim in
        (ap (λ rows. some (record q' { rows = rows }))
          (update_no_row (held waiting at) (unchanged waiting) (finished error later) q'.rows
            same_row e))

find_active :
    (rows : List RefreshRequest)
    → any is_active rows ≡ true
    → (r : RefreshRequest) × (find is_active rows ≡ some r) × (is_active r ≡ true)
unfolding any find
find_active [] h = cc
find_active (r ∷ rows) h = elim (Bool-cases (is_active r)) [
  | inl hit ↦ rw hit (r, refl, hit)
  | inr miss ↦ rw miss (find_active rows (ground arith))
]

-- Where nobody acts between its statements, one attempt is enough: who asks for a refresh is given an active request, the
-- one that is waiting or under way if there is one, else a new one.
pub request_refresh_returns :
    (fuel : ℕ) (by : Option String) (now : ℕ) (q : Queue)
    → (asked : Asked) × ((request_refresh (suc fuel) (λ _ others. others) by now q).0 ≡ some asked)
      × (is_active asked.request ≡ true)
      × (asked.queued ≡ not (any is_active q.rows))
unfolding request_refresh
request_refresh_returns fuel by now q = elim (Bool-cases (any is_active q.rows)) [
  | inl busy ↦
      let (r, e, a) = find_active q.rows busy in
      unfold insert_request asked_or join in
      (record { request = r; queued = false }, rw (busy, e) refl, a, rw busy refl)
  | inr free ↦
      unfold insert_request asked_or queued is_active in
      (
        record { request = queued by now q.next_id; queued = true },
        rw free refl,
        refl,
        rw free refl,
      )
]
