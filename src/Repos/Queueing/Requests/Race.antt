-- ===== src/Repos/Queueing/Requests/Race.antt =====
-- Two requests for one new URL that check before either inserts.
use know_your_repo.Prelude.{ℕ, ◌≡◌, refl, ap, ◌∙◌, false, List, [], ◌∷◌, none}
use know_your_repo.Text.{Text, same}
use know_your_repo.Store.Jobs.{insert_job, get_active_job_by_url}
use know_your_repo.Store.Jobs.Rows.{HasJob, HasJob-insert_job, insert_job-HasJob}
use know_your_repo.Store.Repositories.{get_repository_by_url}
use know_your_repo.Repos.World.{World, and_then, return}
use know_your_repo.Repos.World.Rules.{query-run, exec-run}
use know_your_repo.Repos.Queueing.{internal_error}
use know_your_repo.Repos.Queueing.Requests.{
  Request, create_checking, create_locating, create_inserting, create_enqueuing, answered, settle,
  advance, System, move, run, after_check, after_location,
}

module _ (w : World) (calm : w.db_faults ≡ []) where
  check-step :
      (fresh_id url : Text)
      → get_active_job_by_url url w.db ≡ none
      → advance (create_checking fresh_id url) w ≡ (create_locating fresh_id url, w)
  unfolding advance
  check-step fresh_id url idle =
      ap
        (λ r.
          settle (answered internal_error) (and_then r (λ a. return (after_check fresh_id url a))))
        (query-run w (get_active_job_by_url url) calm)
      ∙ ap (λ a. (after_check fresh_id url a, w)) idle

  locate-step :
      (fresh_id url : Text)
      → get_repository_by_url url w.db ≡ none
      → advance (create_locating fresh_id url) w ≡ (create_inserting fresh_id url, w)
  unfolding advance
  locate-step fresh_id url unknown =
      ap
        (λ r.
          settle (answered internal_error)
            (and_then r (λ a. return (after_location fresh_id url a))))
        (query-run w (get_repository_by_url url) calm)
      ∙ ap (λ a. (after_location fresh_id url a, w)) unknown

  insert-step :
      (id url : Text)
      → advance (create_inserting id url) w
        ≡ (create_enqueuing id, record w { db = insert_job id url w.db })
  unfolding advance
  insert-step id url =
      ap (λ r. settle (answered internal_error) (and_then r (λ _. return (create_enqueuing id))))
        (exec-run w (insert_job id url) calm)

-- The first, then the second, at each of three calls.
abbrev pub in_turns : List ℕ
in_turns = 0 ∷ 1 ∷ 0 ∷ 1 ∷ 0 ∷ 1 ∷ []

-- Two requests to CreateRepo, with different fresh ids, for a URL that has no active job and is not
-- on record, where no database call fails: if they make their calls in turns, both see that there is
-- no active job and both insert one. Then two jobs with different ids are active for the URL, and each
-- request goes on to enqueue its own.
pub create_repo-races :
    (a b url : Text) (w : World)
    → w.db_faults ≡ []
    → get_active_job_by_url url w.db ≡ none
    → get_repository_by_url url w.db ≡ none
    → same a b ≡ false
    → (s : System) × (run in_turns
          (record { requests = create_checking a url ∷ create_checking b url ∷ []; world = w })
        ≡ s)
      × (s.requests ≡ create_enqueuing a ∷ create_enqueuing b ∷ [])
      × HasJob a url s.world.db.ingestion_jobs
      × HasJob b url s.world.db.ingestion_jobs
unfolding run move
create_repo-races a b url w calm idle unknown differ =
    let w₁ : World = record w { db = insert_job a url w.db } in
    let w₂ : World = record w₁ { db = insert_job b url w₁.db } in
    (
      record { requests = create_enqueuing a ∷ create_enqueuing b ∷ []; world = w₂ },
      ap
            (λ (p : Request × World).
              run (1 ∷ 0 ∷ 1 ∷ 0 ∷ 1 ∷ [])
                (record { requests = p.0 ∷ create_checking b url ∷ []; world = p.1 }))
            (check-step w calm a url idle)
          ∙ ap
              (λ (p : Request × World).
                run (0 ∷ 1 ∷ 0 ∷ 1 ∷ [])
                  (record { requests = create_locating a url ∷ p.0 ∷ []; world = p.1 }))
              (check-step w calm b url idle)
          ∙ ap
              (λ (p : Request × World).
                run (1 ∷ 0 ∷ 1 ∷ [])
                  (record { requests = p.0 ∷ create_locating b url ∷ []; world = p.1 }))
              (locate-step w calm a url unknown)
          ∙ ap
              (λ (p : Request × World).
                run (0 ∷ 1 ∷ [])
                  (record { requests = create_inserting a url ∷ p.0 ∷ []; world = p.1 }))
              (locate-step w calm b url unknown)
          ∙ ap
              (λ (p : Request × World).
                run (1 ∷ []) (record { requests = p.0 ∷ create_inserting b url ∷ []; world = p.1 }))
              (insert-step w calm a url)
          ∙ ap
              (λ (p : Request × World).
                run [] (record { requests = create_enqueuing a ∷ p.0 ∷ []; world = p.1 }))
              (insert-step w₁ calm b url),
      refl,
      HasJob-insert_job b url a w₁.db differ (insert_job-HasJob a url w.db),
      insert_job-HasJob b url w₁.db,
    )
