-- ===== src/Store/Repositories.antt =====
-- api/internal/store/repository.go and sync_repo.go: the table repositories.
pub mod Rows
use know_your_repo.Prelude.{
  ℕ, ◌≡◌, refl, List, [], ◌∷◌, ◌++◌, Option, some, none, select, ltb, if◌then◌else◌,
}
use know_your_repo.Text.{Text, same, equal_fold}
use know_your_repo.Store.{Db, Repository}
use mathlib.Core.Option

-- INSERT fails where the primary key is taken: `none`.
unfoldable pub find_by_id : Text → List Repository → Option Repository
find_by_id id [] = none
find_by_id id (r ∷ rs) = if same r.id id then some r else find_by_id id rs

pub get_repository_by_id : Text → Db → Option Repository
unfolding find_by_id
get_repository_by_id id db = find_by_id id db.repositories

pub insert_repository : Text → Text → Db → Option Db
unfolding get_repository_by_id
insert_repository id url db = elim (get_repository_by_id id db) [
  | some _ ↦ none
  | none ↦ some (record db {
    repositories =
        db.repositories
        ++ record {
          id = id;
          repo_url = url;
          created_at = db.now;
          last_commit_sha = none;
          last_checked_at = none;
        }
          ∷ [];
  })
]

-- ORDER BY created_at LIMIT 1
oldest : List Repository → Option Repository
oldest [] = none
oldest (r ∷ rs) = elim (oldest rs) [
  | none ↦ some r
  | some s ↦ if ltb s.created_at r.created_at then some s else some r
]

unfoldable pub get_repository_by_url : Text → Db → Option Repository
unfolding oldest
get_repository_by_url url db = oldest (select (λ r. equal_fold r.repo_url url) db.repositories)

update_repository : Text → (Repository → Repository) → List Repository → List Repository
update_repository id f [] = []
update_repository id f (r ∷ rs) = (if same r.id id then f r else r) ∷ update_repository id f rs

pub touch_repo_check : Text → Text → Db → Db
unfolding update_repository
touch_repo_check id sha db = record db {
  repositories =
      update_repository id
        (λ r. record r { last_commit_sha = some sha; last_checked_at = some db.now })
        db.repositories;
}

-- COALESCE(last_commit_sha, ''); `none` is the error of a missing row.
unfoldable pub get_last_commit_sha : Text → Db → Option Text
unfolding get_repository_by_id
get_last_commit_sha id db =
    Option.map (λ (r : Repository). Option.get_or r.last_commit_sha []) (get_repository_by_id id db)

-- GetLastCheckedAt, whose `ok` is false for a missing row or value.
pub get_last_checked_at : Text → Db → Option ℕ
unfolding get_repository_by_id
get_last_checked_at id db =
    Option.bind (get_repository_by_id id db) (λ (r : Repository). r.last_checked_at)

pub jobs-touch_repo_check :
    (id sha : Text) (db : Db) → (touch_repo_check id sha db).ingestion_jobs ≡ db.ingestion_jobs
unfolding touch_repo_check
jobs-touch_repo_check id sha db = refl
