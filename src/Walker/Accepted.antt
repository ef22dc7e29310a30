-- ===== src/Walker/Accepted.antt =====
-- Which files a walk gives.
use mathlib.Core.List.{append_assoc, append-nil}
use know_your_repo.Prelude.{
  ℕ, zero, suc, ◌≡◌, refl, sym, ap, ◌∙◌, inl, inr, Bool, true, false, ◌&&◌, ◌||◌, List, [], ◌∷◌,
  ◌++◌, some, length, take, arith, Bool-cases, leb, ltb, if◌then◌else◌, length-append,
  take_of_length-le, take-append_left,
}
use know_your_repo.Text.{Text}
use know_your_repo.Ingest.{FileInfo}
use know_your_repo.Walker.{
  Walker, Entries, Status, Walk, is_skipped, is_passed_over, join_path, file_info, has_ended, offer,
  visit_file, walk, walked, walk_repo,
}

-- The files of the directories that are not skipped, but for those that are left out, in order.
abbrev pub accepted : Walker → Text → Text → Text → Entries → List FileInfo
accepted w root_name root at Entries.done = []
accepted w root_name root at (Entries.file name size rest) =
    if is_passed_over w root at name size
    then accepted w root_name root at rest
    else file_info root (join_path at name) ∷ accepted w root_name root at rest
accepted w root_name root at (Entries.directory name children rest) =
    (if is_skipped root_name name
      then []
      else accepted w root_name root (join_path at name) children)
    ++ accepted w root_name root at rest
accepted w root_name root at (Entries.unreadable name rest) = accepted w root_name root at rest

-- No error is reported outside the directories that are skipped.
abbrev pub is_readable : Text → Entries → Bool
is_readable root_name Entries.done = true
is_readable root_name (Entries.file name size rest) = is_readable root_name rest
is_readable root_name (Entries.directory name children rest) =
    (is_skipped root_name name || is_readable root_name children) && is_readable root_name rest
is_readable root_name (Entries.unreadable name rest) = false

-- At most so many; zero disables the limit.
abbrev pub capped : ℕ → List FileInfo → List FileInfo
capped zero fs = fs
capped (suc n) fs = take (suc n) fs

abbrev under_way : List FileInfo → Walk
under_way files = record { files = files; status = Status.going }

capped-fits :
    (n : ℕ) (fs : List FileInfo) → (ltb 0 n && ltb n (length fs)) ≡ false → capped n fs ≡ fs
capped-fits zero fs h = refl
capped-fits (suc n) fs h = take_of_length-le (suc n) fs (ground arith)

capped-full :
    (n : ℕ) (fs gs : List FileInfo)
    → (ltb 0 n && leb n (length fs)) ≡ true
    → (ltb 0 n && ltb n (length fs)) ≡ false
    → capped n (fs ++ gs) ≡ fs
capped-full zero fs gs h k = ground arith
capped-full (suc n) fs gs h k =
    take-append_left (suc n) fs gs (ground arith) ∙ take_of_length-le (suc n) fs (ground arith)

and_parts : (a b : Bool) → (a && b) ≡ true → (a ≡ true) × (b ≡ true)
and_parts true b h = (refl, h)
and_parts false b h = cc

or_right : (a b : Bool) → a ≡ false → (a || b) ≡ true → b ≡ true
or_right true b e h = cc
or_right false b e h = h

module _ (w : Walker) (root_name root : Text) where
  offer_all : List FileInfo → Walk → Walk
  offer_all [] st = st
  offer_all (f ∷ fs) st = offer_all fs (offer w f st)

  offer_all-append :
      (xs ys : List FileInfo) (st : Walk) → offer_all (xs ++ ys) st ≡ offer_all ys (offer_all xs st)
  unfolding offer_all
  offer_all-append [] ys st = refl
  offer_all-append (x ∷ xs) ys st = offer_all-append xs ys (offer w x st)

  walk-offers :
      (at : Text) (entries : Entries) (st : Walk)
      → is_readable root_name entries ≡ true
      → walk w root_name root at entries st ≡ offer_all (accepted w root_name root at entries) st
  unfolding walk visit_file offer_all
  walk-offers at Entries.done st h = refl
  walk-offers at (Entries.file name size rest) st h =
      elim (Bool-cases (is_passed_over w root at name size)) [
        | inl over ↦ rw over (walk-offers at rest st h)
        | inr kept ↦
            rw kept (walk-offers at rest (offer w (file_info root (join_path at name)) st) h)
      ]
  walk-offers at (Entries.directory name children rest) st h =
      let parts =
        and_parts (is_skipped root_name name || is_readable root_name children)
          (is_readable root_name rest) h in
      elim (Bool-cases (is_skipped root_name name)) [
        | inl skipped ↦ rw skipped (walk-offers at rest st parts.1)
        | inr entered ↦ rw entered (
            ap (walk w root_name root at rest) (
              walk-offers (join_path at name) children st (
                or_right (is_skipped root_name name) (is_readable root_name children) entered
                  parts.0))
            ∙ walk-offers at rest
                (offer_all (accepted w root_name root (join_path at name) children) st) parts.1
            ∙ sym (
                offer_all-append (accepted w root_name root (join_path at name) children)
                  (accepted w root_name root at rest) st))
      ]
  walk-offers at (Entries.unreadable name rest) st h = cc

  offer_all-ended :
      (fs : List FileInfo) (st : Walk) → has_ended st.status ≡ true → offer_all fs st ≡ st
  unfolding offer_all offer
  offer_all-ended [] st h = refl
  offer_all-ended (f ∷ fs) st h = rw h (offer_all-ended fs st h)

  -- Where nothing was cut yet, the files offered are taken up to the limit.
  offer_all-walked :
      (fs files : List FileInfo)
      → (ltb 0 w.max_files && ltb w.max_files (length files)) ≡ false
      → walked (offer_all fs (under_way files)) ≡ some (capped w.max_files (files ++ fs))
  unfolding offer_all offer
  offer_all-walked [] files k =
      ap some (sym (ap (capped w.max_files) (append-nil files) ∙ capped-fits w.max_files files k))
  offer_all-walked (f ∷ fs) files k =
      elim (Bool-cases (ltb 0 w.max_files && leb w.max_files (length files))) [
        | inl full ↦ rw full (
            ap walked
              (offer_all-ended fs (record { files = files; status = Status.skipped_all }) refl)
            ∙ ap some (sym (capped-full w.max_files files (f ∷ fs) full k)))
        | inr room ↦ rw room (
            offer_all-walked fs (files ++ f ∷ []) (ground (arith, length-append files (f ∷ [])))
            ∙ ap (λ xs. some (capped w.max_files xs)) (append_assoc files (f ∷ []) fs))
      ]

-- Where no error is reported, the walk gives the files accepted, in order, up to the limit if there is one;
-- none if the root has the name of an ignored directory.
pub walk_repo-accepted :
    (w : Walker) (root_name root : Text) (entries : Entries)
    → is_readable root_name entries ≡ true
    → walk_repo w root_name root entries
      ≡ some (
          if is_skipped root_name root_name
          then []
          else capped w.max_files (accepted w root_name root [] entries))
unfolding walk_repo
walk_repo-accepted w root_name root entries h = elim (Bool-cases (is_skipped root_name root_name)) [
  | inl skipped ↦ rw (walk_repo, skipped) refl
  | inr entered ↦
      rw (walk_repo, entered)
        (ap walked (walk-offers w root_name root [] entries (under_way []) h)
          ∙ offer_all-walked w root_name root (accepted w root_name root [] entries) []
              (ground arith))
]
