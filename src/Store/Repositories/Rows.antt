-- ===== src/Store/Repositories/Rows.antt =====
-- The rows of repositories for a URL: what GetRepositoryByURL finds of them.
use mathlib.Core.List.{Memᴰ}
use mathlib.Core.List.Memᴰ
use know_your_repo.Prelude.{
  ◌≡◌, refl, sym, ap, ◌∙◌, inl, inr, true, List, [], ◌∷◌, some, select, ltb, All, All-mem,
  mem-select, mem-select_of_mem, Bool-cases,
}
use know_your_repo.Text.{Text, same, same_iff, equal_fold, to_lower}
use know_your_repo.Store.{Db, Repository}
use know_your_repo.Store.Repositories.{
  oldest, get_repository_by_url, update_repository, touch_repo_check,
}

-- The URLs are compared up to case.
equal_fold_trans :
    (a b c : Text) → equal_fold a b ≡ true → equal_fold b c ≡ true → equal_fold a c ≡ true
unfolding equal_fold
equal_fold_trans a b c h k =
    ap (λ t. same t (to_lower c)) ((same_iff (to_lower a) (to_lower b)).0 h) ∙ k

equal_fold-sym : (a b : Text) → equal_fold a b ≡ true → equal_fold b a ≡ true
unfolding equal_fold
equal_fold-sym a b h =
    (same_iff (to_lower b) (to_lower a)).1 (sym ((same_iff (to_lower a) (to_lower b)).0 h))

-- The URL is on record, and every row for it has the id.
pub record IsOnRecord (url id : Text) (rs : List Repository) : Type 0 where
  pub repo : Repository
  pub present : Memᴰ repo rs
  pub its_url : equal_fold repo.repo_url url ≡ true
  pub named : All (λ r. equal_fold r.repo_url url ≡ true → r.id ≡ id) rs

oldest-mem :
    (r : Repository) (rs : List Repository)
    → (x : Repository) × (oldest (r ∷ rs) ≡ some x) × Memᴰ x (r ∷ rs)
unfolding oldest
oldest-mem r [] = (r, refl, Memᴰ.head refl)
oldest-mem r (s ∷ rs) =
    let (x, e, m) = oldest-mem s rs in
    elim (Bool-cases (ltb x.created_at r.created_at)) [
      | inl older ↦ (x, rw (oldest, e) (rw older refl), Memᴰ.tail m)
      | inr newer ↦ (r, rw (oldest, e) (rw newer refl), Memᴰ.head refl)
    ]

oldest-found :
    (rs : List Repository) {y : Repository}
    → Memᴰ y rs
    → (x : Repository) × (oldest rs ≡ some x) × Memᴰ x rs
oldest-found [] m = absurd (Memᴰ.not-nil m)
oldest-found (r ∷ rs) m = oldest-mem r rs

-- GetRepositoryByURL finds a row of the id, by any spelling of the URL.
pub get_repository_by_url-IsOnRecord :
    (url id other : Text) (db : Db)
    → IsOnRecord url id db.repositories
    → equal_fold other url ≡ true
    → (x : Repository) × (get_repository_by_url other db ≡ some x) × (x.id ≡ id)
unfolding get_repository_by_url
get_repository_by_url-IsOnRecord url id other db h e =
    let is_other = λ (r : Repository). equal_fold r.repo_url other in
    let its_other =
      equal_fold_trans h.repo.repo_url url other h.its_url (equal_fold-sym other url e) in
    let (x, found, m) =
      oldest-found (select is_other db.repositories)
        (mem-select_of_mem is_other db.repositories h.present its_other) in
    let (there, matches) = mem-select is_other db.repositories m in
    (
      x,
      found,
      All-mem _ db.repositories h.named there (equal_fold_trans x.repo_url other url matches e),
    )

-- What a call stores of a repository leaves the ids and the URLs.
update-mem :
    (id : Text) (f : Repository → Repository) (rs : List Repository) {x : Repository}
    → ((r : Repository) → (f r).repo_url ≡ r.repo_url)
    → Memᴰ x rs
    → (y : Repository) × Memᴰ y (update_repository id f rs) × (y.repo_url ≡ x.repo_url)
unfolding update_repository
update-mem id f [] keeps m = absurd (Memᴰ.not-nil m)
update-mem id f (r ∷ rs) keeps m = elim (Memᴰ.cases_cons m) [
  | inl here ↦ elim (Bool-cases (same r.id id)) [
    | inl e ↦ (f r, rw e (Memᴰ.head refl), keeps r ∙ ap (λ (z : Repository). z.repo_url) (sym here))
    | inr n ↦ (r, rw n (Memᴰ.head refl), ap (λ (z : Repository). z.repo_url) (sym here))
  ]
  | inr rest ↦ let (y, k, u) = update-mem id f rs keeps rest in (y, Memᴰ.tail k, u)
]

update-named :
    (k : Text) (f : Repository → Repository) (url id : Text) (rs : List Repository)
    → ((r : Repository) → (f r).repo_url ≡ r.repo_url)
    → ((r : Repository) → (f r).id ≡ r.id)
    → All (λ r. equal_fold r.repo_url url ≡ true → r.id ≡ id) rs
    → All (λ r. equal_fold r.repo_url url ≡ true → r.id ≡ id) (update_repository k f rs)
unfolding update_repository
update-named k f url id [] urls ids h = tt
update-named k f url id (r ∷ rs) urls ids (first, h) = elim (Bool-cases (same r.id k)) [
  | inl e ↦ rw e (
    (λ a. ids r ∙ first (ap (λ t. equal_fold t url) (sym (urls r)) ∙ a)),
    update-named k f url id rs urls ids h,
  )
  | inr n ↦ rw n (first, update-named k f url id rs urls ids h)
]

pub IsOnRecord-touch :
    (url id k sha : Text) (db : Db)
    → IsOnRecord url id db.repositories
    → IsOnRecord url id (touch_repo_check k sha db).repositories
unfolding touch_repo_check
IsOnRecord-touch url id k sha db h =
    let (y, there, u) = update-mem k _ db.repositories (λ r. refl) h.present in
    record {
      repo = y;
      present = there;
      its_url = ap (λ t. equal_fold t url) u ∙ h.its_url;
      named = update-named k _ url id db.repositories (λ r. refl) (λ r. refl) h.named;
    }
