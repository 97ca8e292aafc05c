-- ===== src/Application/Examples/Runs.antt =====
-- The runs of the small household.
use job_dashboard.Prelude.{[], ◌∷◌, List}
use job_dashboard.Application.Requests.{RunAction, RunCommand}
use job_dashboard.Application.Safety.History.{Request, polling, run_start, run_order, serve_all}
use job_dashboard.Application.Safety.Exclusive.{Exclusive, serve_all-Exclusive}
use job_dashboard.Application.Examples.Household.{env, token, demo}

abbrev order : RunAction → RunCommand
order action = record { request_id = 70; expected_revision = 1; action = action }

-- The run is paused, another is started, and the first is to resume.
abbrev replaced : List Request
replaced =
    run_order 1 5 2000 (order RunAction.pause)
    ∷ polling token 8 2500
    ∷ run_start 1 71 7 9 3000
    ∷ run_order 1 5 3500
        (record { request_id = 72; expected_revision = 2; action = RunAction.resume })
    ∷ []

serve_all-Exclusive_example : Exclusive (serve_all env replaced demo).runs
serve_all-Exclusive_example = serve_all-Exclusive env replaced demo (tt, tt)
