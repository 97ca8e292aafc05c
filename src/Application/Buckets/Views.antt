-- ===== src/Application/Buckets/Views.antt =====
-- lib/applications/buckets.ts and badges.ts: how the lists and badges of a row hang together.
use job_dashboard.Prelude.{
  is_empty, ℕ, ◌≤◌, ◌≡◌, refl, ◌⊎◌, ◌↔◌, String, true, false, Option, is_some, List, [], ◌∷◌, arith,
}
use job_dashboard.Application.State.{ApplicationState, includes, is_awaiting_submit_approval}
use job_dashboard.Application.Rows.{Application}
use job_dashboard.Application.Buckets.{
  in_flight_states, live_states, in_live, Bucket, action, applied, archived, gone, bucket, row_asks,
  progress, approval, tone_of, status_badge,
}

-- How far a row has left the applicant's view.
abbrev pub age : Bucket → ℕ
age action = 0
age applied = 0
age archived = 1
age gone = 2

-- As time passes an unchanged row only goes from the lists in use to the archive and out of it, and an applied one stays
-- applied.
pub bucket_ages :
    (app : Application) (now later : ℕ)
    → now ≤ later
    → (age (bucket app now) ≤ age (bucket app later))
      × ((bucket app now ≡ applied) ↔ (bucket app later ≡ applied))
unfolding bucket
bucket_ages app now later h = ground arith

-- A row that the employer may have, or that Live shows, is in no archive at any instant, however old it is.
pub in_use_stays :
    (app : Application) (now : ℕ)
    → ((is_some app.hidden_at ≡ false) × (includes in_flight_states app.state ≡ true))
      ⊎ (in_live app ≡ true)
    → age (bucket app now) ≡ 0
unfolding bucket in_live
in_use_stays app now h = ground arith

is_empty_nil : {Q : Type 0} (qs : List Q) → is_empty qs ≡ true → qs ≡ []
is_empty_nil [] e = refl
is_empty_nil (q ∷ qs) e = cc

-- A badge says that a form waits for approval exactly where the applicant's approval is accepted, and that the worker is at
-- work exactly in the states that Live shows; and a card never both asks questions and offers a restart.
pub status_badge-live :
    {Q : Type 0} (state : ApplicationState) (reason : Option String) (open_questions : List Q)
    → ((status_badge state reason ≡ approval) ↔ (is_awaiting_submit_approval state reason ≡ true))
      × ((status_badge state reason ≡ progress) ↔ (includes live_states state ≡ true))
      × ((row_asks state reason open_questions).restart ≡ true
          → (row_asks state reason open_questions).questions ≡ [])
unfolding status_badge tone_of is_awaiting_submit_approval row_asks
status_badge-live state reason open_questions =
    (ground arith, ground arith, λ r. is_empty_nil _ (ground arith))
