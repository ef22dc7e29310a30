-- ===== src/Store/Jobs/Unfinished.antt =====
-- ListUnfinishedJobIDs names every active job.
use mathlib.Core.List.{Memᴰ}
use mathlib.Core.List.Memᴰ
use mathlib.Core.Path.{subst}
use know_your_repo.Prelude.{
  ◌≡◌, refl, true, List, [], ◌∷◌, leb, All-intro, mem-select_of_mem, Bool-cases, inl, inr,
}
use know_your_repo.Store.{Db, IngestionJob}
use know_your_repo.Store.Jobs.{is_active, insert_by_update, by_update, list_unfinished_job_ids}
use know_your_repo.Store.Jobs.Laws.{ActiveIn}

mem-insert_here : (j : IngestionJob) (ks : List IngestionJob) → Memᴰ j (insert_by_update j ks)
unfolding insert_by_update
mem-insert_here j [] = Memᴰ.head refl
mem-insert_here j (k ∷ ks) = elim (Bool-cases (leb j.updated_at k.updated_at)) [
  | inl before ↦ rw before (Memᴰ.head refl)
  | inr after ↦ rw after (Memᴰ.tail (mem-insert_here j ks))
]

mem-insert_there :
    (i j : IngestionJob) (ks : List IngestionJob) → Memᴰ i ks → Memᴰ i (insert_by_update j ks)
unfolding insert_by_update
mem-insert_there i j [] m = elim m [ ]
mem-insert_there i j (k ∷ ks) (Memᴰ.head e) = elim (Bool-cases (leb j.updated_at k.updated_at)) [
  | inl before ↦ rw before (Memᴰ.tail (Memᴰ.head e))
  | inr after ↦ rw after (Memᴰ.head e)
]
mem-insert_there i j (k ∷ ks) (Memᴰ.tail m) = elim (Bool-cases (leb j.updated_at k.updated_at)) [
  | inl before ↦ rw before (Memᴰ.tail (Memᴰ.tail m))
  | inr after ↦ rw after (Memᴰ.tail (mem-insert_there i j ks m))
]

mem-by_update : (i : IngestionJob) (js : List IngestionJob) → Memᴰ i js → Memᴰ i (by_update js)
unfolding by_update
mem-by_update i [] m = m
mem-by_update i (j ∷ js) (Memᴰ.head e) =
    subst (λ k. Memᴰ i (insert_by_update k (by_update js))) e (mem-insert_here i (by_update js))
mem-by_update i (j ∷ js) (Memᴰ.tail m) = mem-insert_there i j (by_update js) (mem-by_update i js m)

pub list_unfinished_job_ids-ActiveIn :
    (db : Db) → ActiveIn (λ id. Memᴰ id (list_unfinished_job_ids db)) db.ingestion_jobs
unfolding list_unfinished_job_ids
list_unfinished_job_ids-ActiveIn db =
    All-intro (λ j. is_active j.status ≡ true → Memᴰ j.id (list_unfinished_job_ids db))
      db.ingestion_jobs
      (λ j m a.
        Memᴰ.map (λ (k : IngestionJob). k.id)
          (mem-by_update j _
            (mem-select_of_mem (λ (k : IngestionJob). is_active k.status) db.ingestion_jobs m a)))
