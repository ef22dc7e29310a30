-- ===== src/Repos/Queueing/Requests/Alone.antt =====
-- A request with no other between its calls: the handler, run as a whole.
use know_your_repo.Prelude.{
  ℕ, zero, suc, ◌≡◌, refl, ap, ◌∙◌, Bool, true, false, ◌&&◌, not, inl, inr, Bool-cases, Option,
  some, none, if◌then◌else◌,
}
use know_your_repo.Text.{Text, same}
use know_your_repo.Store.{IngestionJob, Repository}
use know_your_repo.Store.Jobs.{insert_job, find_job, get_active_job_by_url}
use know_your_repo.Store.Repositories.{get_repository_by_url, get_last_commit_sha}
use know_your_repo.Repos.World.{
  World, Result, ok, err, M, and_then, return, fail, query, exec, enqueue_job, spawn,
}
use know_your_repo.Repos.Queueing.{
  Response, internal_error, Outside, create_repo, create_for_url, unless_active, create_or_serve,
  serve_existing, serve_cached, queue_ingestion, give_up, is_completed, check_and_enqueue_sync,
  sync_unless_active, compare_heads, sync_if_moved, note_unchanged, queue_sync,
  has_pending_embedding,
}
use know_your_repo.Repos.Queueing.Requests.{
  Request, create_checking, create_deciding, create_inserting, create_enqueuing, create_failing,
  answered, sync_checking, sync_inserting, sync_enqueuing, synced, settle, advance, decide, compare,
  after_check, after_location, after_asking, after_sync_check,
}

-- The request makes its next calls, so many of them.
unfoldable pub calls : ℕ → Request × World → Request × World
calls zero s = s
calls (suc n) (r, w) = calls n (advance r w)

calls-answered : (n : ℕ) (r : Response) (w : World) → calls n (answered r, w) ≡ (answered r, w)
unfolding calls advance
calls-answered zero r w = refl
calls-answered (suc n) r w = calls-answered n r w

calls-synced : (n : ℕ) (r : Result Bool) (w : World) → calls n (synced r, w) ≡ (synced r, w)
unfolding calls advance
calls-synced zero r w = refl
calls-synced (suc n) r w = calls-synced n r w

-- What the whole of a handler gives, as a request that ended.
abbrev pub ended : Result Response × World → Request × World
ended (ok r, w) = (answered r, w)
ended (err, w) = (answered internal_error, w)

abbrev pub sync_ended : Result Bool × World → Request × World
sync_ended (r, w) = (synced r, w)

calls-suc : (n : ℕ) (s : Request × World) → calls (suc n) s ≡ calls 1 (calls n s)
unfolding calls
calls-suc zero (r, w) = refl
calls-suc (suc n) (r, w) = calls-suc n (advance r w)

stays : (o : Result Response × World) → calls 1 (ended o) ≡ ended o
stays (ok r, w) = calls-answered 1 r w
stays (err, w) = calls-answered 1 internal_error w

-- A call, and what follows it: if the rest is right for every result, so is the whole.
then_calls :
    {A : Type 0} (n : ℕ) (next : A → Request) (k : A → M Response) (o : Result A × World)
    → ((a : A) (w : World) → calls n (next a, w) ≡ ended (k a w))
    → calls n (settle (answered internal_error) (and_then o (λ a. return (next a))))
      ≡ ended (and_then o k)
then_calls n next k (ok a, w) h = h a w
then_calls n next k (err, w) h = calls-answered n internal_error w

then_sync_calls :
    {A : Type 0} (n : ℕ) (next : A → M Request) (k : A → M Bool) (o : Result A × World)
    → ((a : A) (w : World) → calls n (settle (synced err) (next a w)) ≡ sync_ended (k a w))
    → calls n (settle (synced err) (and_then o next)) ≡ sync_ended (and_then o k)
then_sync_calls n next k (ok a, w) h = h a w
then_sync_calls n next k (err, w) h = calls-synced n err w

module _ (id url : Text) where
  calls-queued :
      (queued : Bool) (w : World)
      → calls 1 (if queued then answered (Response.ingestion_queued id) else create_failing id, w)
        ≡ ended ((if queued then return (Response.ingestion_queued id) else give_up id) w)
  unfolding calls advance give_up
  calls-queued true w = refl
  calls-queued false w = refl

  calls-inserting :
      (w : World) → calls 3 (create_inserting id url, w) ≡ ended (queue_ingestion id url w)
  unfolding calls advance queue_ingestion enqueue_job
  calls-inserting w =
      then_calls 2 (λ _. create_enqueuing id) _ (exec (insert_job id url) w)
        (λ _ w'. calls-queued _ _)

calls-decided :
    (repo : Repository) (url : Text) (done : Bool) (w : World)
    → calls 3 (settle (answered internal_error) (decide repo url done w))
      ≡ ended ((if done then serve_cached repo else queue_ingestion repo.id url) w)
unfolding decide serve_cached spawn
calls-decided repo url true w = calls-answered 3 (Response.cached repo.id) _
calls-decided repo url false w = calls-inserting repo.id url w

calls-deciding :
    (repo : Repository) (url : Text) (w : World)
    → calls 4 (create_deciding repo url, w) ≡ ended (serve_existing url repo w)
unfolding calls advance serve_existing
calls-deciding repo url w = after (query (find_job repo.id) w)
  where
    after :
        (o : Result (Option IngestionJob) × World)
        → calls 3 (
            settle
              (answered internal_error)
              (and_then o (λ job. decide repo url (is_completed job))))
          ≡ ended (
              and_then o (λ job.
                if is_completed job then serve_cached repo else queue_ingestion repo.id url))
    after (ok job, w') = calls-decided repo url (is_completed job) w'
    after (err, w') = calls-answered 3 internal_error w'

calls-located :
    (fresh_id url : Text) (existing : Option Repository) (w : World)
    → calls 4 (after_location fresh_id url existing, w)
      ≡ ended (create_or_serve fresh_id url existing w)
unfolding create_or_serve
calls-located fresh_id url (some repo) w = calls-deciding repo url w
calls-located fresh_id url none w =
    calls-suc 3 (create_inserting fresh_id url, w)
    ∙ ap (calls 1) (calls-inserting fresh_id url w)
    ∙ stays (queue_ingestion fresh_id url w)

calls-checked :
    (fresh_id url : Text) (active : Option IngestionJob) (w : World)
    → calls 5 (after_check fresh_id url active, w) ≡ ended (unless_active fresh_id url active w)
unfolding calls advance unless_active
calls-checked fresh_id url (some job) w = calls-answered 5 (Response.in_progress job.id) w
calls-checked fresh_id url none w =
    then_calls 4 (after_location fresh_id url) _ (query (get_repository_by_url url) w)
      (calls-located fresh_id url)

ended-or_internal_error :
    (o : Result Response × World)
    → ended o ≡ (answered (elim o.0 [ ok a ↦ a | err ↦ internal_error ]), o.1)
ended-or_internal_error (ok r, w) = refl
ended-or_internal_error (err, w) = refl

-- A request to CreateRepo for a URL, whose calls no other request comes between, has ended after six of
-- them, with the answer of create_repo and the world that it leaves.
pub create_repo-alone :
    (fresh_id url : Text) (w : World)
    → calls 6 (create_checking fresh_id url, w)
      ≡ (answered (create_repo fresh_id (some url) w).0, (create_repo fresh_id (some url) w).1)
unfolding calls advance create_repo create_for_url
create_repo-alone fresh_id url w =
    then_calls 5 (after_check fresh_id url) _ (query (get_active_job_by_url url) w)
      (calls-checked fresh_id url)
    ∙ ended-or_internal_error (create_for_url fresh_id url w)

module _ (outside : Outside) (id url : Text) where
  calls-sync_queued :
      (queued : Bool) (w : World)
      → calls 1 (synced (if queued then ok true else err), w)
        ≡ sync_ended ((if queued then return true else fail) w)
  calls-sync_queued true w = calls-synced 1 (ok true) w
  calls-sync_queued false w = calls-synced 1 err w

  calls-sync_inserting :
      (w : World) → calls 3 (sync_inserting id url, w) ≡ sync_ended (queue_sync id url w)
  unfolding calls advance queue_sync enqueue_job
  calls-sync_inserting w =
      then_sync_calls 2 (λ _. return (sync_enqueuing id)) _ (exec (insert_job id url) w)
        (λ _ w'. calls-sync_queued _ _)

  calls-compared :
      (pending_embedding : Bool) (remote_sha : Text) (found : Option Text) (w : World)
      → calls 3 (settle (synced err) (compare outside id url pending_embedding remote_sha found w))
        ≡ sync_ended (sync_if_moved outside id url pending_embedding remote_sha found w)
  unfolding compare sync_if_moved note_unchanged
  calls-compared pending_embedding remote_sha none w = calls-synced 3 err w
  calls-compared pending_embedding remote_sha (some local_sha) w =
      elim (Bool-cases
        (same remote_sha local_sha && (outside.clone_exists && not pending_embedding))) [
          | inl still ↦ rw still (calls-synced 3 (ok false) _)
          | inr moved ↦ rw moved (calls-sync_inserting w)
        ]

  calls-asked :
      (remote : Option Text)
      → outside.remote_sha ≡ remote
      → (pending_embedding : Bool) (w : World)
      → calls 4 (after_asking outside id url pending_embedding, w)
        ≡ sync_ended (compare_heads outside id url remote pending_embedding w)
  unfolding calls advance compare_heads
  calls-asked none e pending_embedding w = rw e (calls-synced 4 err w)
  calls-asked (some remote_sha) e pending_embedding w = rw e (
      then_sync_calls 3 (compare outside id url pending_embedding remote_sha) _
        (query (get_last_commit_sha id) w) (calls-compared pending_embedding remote_sha))

  calls-sync_checked :
      (active : Option IngestionJob) (w : World)
      → calls 5 (after_sync_check outside id url active, w)
        ≡ sync_ended (sync_unless_active outside id url active w)
  unfolding calls advance sync_unless_active
  calls-sync_checked (some job) w = calls-synced 5 (ok true) w
  calls-sync_checked none w =
      then_sync_calls 4 (λ b. return (after_asking outside id url b)) _
        (has_pending_embedding outside.embed_info id w) (calls-asked outside.remote_sha refl)

  -- A sync whose calls no other request comes between has ended after six of them, with the outcome of
  -- check_and_enqueue_sync and the world that it leaves.
  pub check_and_enqueue_sync-alone :
      (w : World)
      → calls 6 (sync_checking outside id url, w) ≡ (
        synced (check_and_enqueue_sync outside id url w).0,
        (check_and_enqueue_sync outside id url w).1,
      )
  unfolding calls advance check_and_enqueue_sync
  check_and_enqueue_sync-alone w =
      then_sync_calls 5 (λ a. return (after_sync_check outside id url a)) _
        (query (get_active_job_by_url url) w) calls-sync_checked
