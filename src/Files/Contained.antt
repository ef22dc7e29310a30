-- ===== src/Files/Contained.antt =====
-- Which files are served.
use know_your_repo.Prelude.{
  ℕ, ◌≤◌, ◌≡◌, ◌⊎◌, refl, sym, ◌∙◌, inl, inr, true, false, ◌||◌, [], ◌∷◌, ◌++◌, Option, some, none,
  ltb, arith, Bool-cases, ==_iff,
}
use mathlib.Core.List.{append_assoc}
use know_your_repo.Text.{Text, same, same_iff, is_empty, has_prefix}
use know_your_repo.Store.{Repository}
use know_your_repo.Snippet.{extract_snippet}
use know_your_repo.Files.{
  Platform, Stat, bad_request, too_large, unavailable, served, is_within, clone_exists, get_line,
  serve_lines, serve_content, serve_stat, serve_path, serve_below, serve_repository,
  get_file_content, repo_dir_for, max_servable_file_bytes,
}

has_prefix-split : (s p : Text) → has_prefix s p ≡ true → (rest : Text) × (s ≡ p ++ rest)
unfolding has_prefix
has_prefix-split s [] h = (s, refl)
has_prefix-split [] (c ∷ p) h = cc
has_prefix-split (d ∷ s) (c ∷ p) h =
    let (rest, e) = has_prefix-split s p (ground arith) in
    let same_byte : d ≡ c = ground (arith, ==_iff d c) in (rest, cc)

-- The directory, or what follows it and a slash.
abbrev pub IsBelow : Text → Text → Type 0
IsBelow repo_dir path = (path ≡ repo_dir) ⊎ ((rest : Text) × (path ≡ repo_dir ++ b'/' ∷ rest))

is_within-IsBelow : (repo_dir path : Text) → is_within repo_dir path ≡ true → IsBelow repo_dir path
is_within-IsBelow repo_dir path h = elim (Bool-cases (same path repo_dir)) [
  | inl here ↦ inl ((same_iff path repo_dir).0 here)
  | inr below ↦
      let (rest, e) = has_prefix-split path (repo_dir ++ b'/' ∷ []) (ground arith) in
      inr (rest, e ∙ append_assoc repo_dir (b'/' ∷ []) rest)
]

served-inj : {s t : Text} → served s ≡ served t → s ≡ t
served-inj e = cc

module _ (os : Platform) where
  -- The text is an excerpt of a file that is not too large.
  pub record IsExcerpt (path text : Text) : Type 0 where
    pub size : ℕ
    pub content : Text
    pub start_line : ℕ
    pub end_line : ℕ
    pub is_file : os.stat path ≡ Stat.info false size
    pub small : size ≤ max_servable_file_bytes
    pub read : os.read_file path ≡ some content
    pub cut : text ≡ extract_snippet content start_line end_line

  lines-served :
      (content text : Text) (start end : Option ℕ)
      → serve_lines os content start end ≡ served text
      → (a : ℕ) × (b : ℕ) × (text ≡ extract_snippet content a b)
  unfolding serve_lines
  lines-served content text none end e = cc
  lines-served content text (some a) none e = cc
  lines-served content text (some a) (some b) e =
      let shown : served (extract_snippet content a b) ≡ served text = e in
      (a, b, sym (served-inj shown))

  content-served :
      (raw_start raw_end text : Text) (read : Option Text)
      → serve_content os raw_start raw_end read ≡ served text
      → (content : Text) × (a : ℕ) × (b : ℕ) × (read ≡ some content)
        × (text ≡ extract_snippet content a b)
  unfolding serve_content
  content-served raw_start raw_end text none e = cc
  content-served raw_start raw_end text (some content) e =
      let (a, b, cut) = lines-served content text (get_line os raw_start) (get_line os raw_end) e in
      (content, a, b, refl, cut)

  stat-served :
      (path raw_start raw_end text : Text) (st : Stat)
      → os.stat path ≡ st
      → serve_stat os path raw_start raw_end st ≡ served text
      → IsExcerpt path text
  unfolding serve_stat
  stat-served path raw_start raw_end text Stat.missing f e = cc
  stat-served path raw_start raw_end text Stat.stat_failed f e = cc
  stat-served path raw_start raw_end text (Stat.info true size) f e = cc
  stat-served path raw_start raw_end text (Stat.info false size) f e =
      elim (Bool-cases (ltb max_servable_file_bytes size)) [
        | inl large ↦ let no : too_large ≡ served text = rw large at e in cc
        | inr small ↦
            let (content, a, b, read, cut) =
              content-served raw_start raw_end text (os.read_file path) (rw small at e) in
            record {
              size = size;
              content = content;
              start_line = a;
              end_line = b;
              is_file = f;
              small = ground arith;
              read = read;
              cut = cut;
            }
      ]

  path-served :
      (repo_dir raw_start raw_end text : Text) (o : Option Text)
      → serve_path os repo_dir raw_start raw_end o ≡ served text
      → (path : Text) × (o ≡ some path) × IsBelow repo_dir path × IsExcerpt path text
  unfolding serve_path
  path-served repo_dir raw_start raw_end text none e = cc
  path-served repo_dir raw_start raw_end text (some path) e =
      elim (Bool-cases (is_within repo_dir path)) [
        | inr outside ↦ let no : bad_request ≡ served text = rw outside at e in cc
        | inl within ↦ (
          path,
          refl,
          is_within-IsBelow repo_dir path within,
          stat-served path raw_start raw_end text (os.stat path) refl (rw within at e),
        )
      ]

  -- What may be served of a repository: an excerpt of a file at the absolute path that the clone's
  -- directory and the path asked for make up, which is the directory or below it.
  abbrev pub IsServed : Text → Text → Text → Type 0
  IsServed repo_id rel_path text =
      (repo_dir : Text) × (path : Text) × (os.abs (repo_dir_for repo_id) ≡ some repo_dir)
      × (os.abs (os.join repo_dir rel_path) ≡ some path)
      × IsBelow repo_dir path
      × IsExcerpt path text

  IsBelow-served :
      (rel_path raw_start raw_end text : Text) (o : Option Text)
      → serve_below os rel_path raw_start raw_end o ≡ served text
      → (repo_dir : Text) × (path : Text) × (o ≡ some repo_dir)
        × (os.abs (os.join repo_dir rel_path) ≡ some path)
        × IsBelow repo_dir path
        × IsExcerpt path text
  unfolding serve_below
  IsBelow-served rel_path raw_start raw_end text none e = cc
  IsBelow-served rel_path raw_start raw_end text (some repo_dir) e =
      let (path, at, below, excerpt) =
        path-served repo_dir raw_start raw_end text (os.abs (os.join repo_dir rel_path)) e in
      (repo_dir, path, refl, at, below, excerpt)

  repository-served :
      (lookup : Option (Option Repository)) (repo_id rel_path raw_start raw_end text : Text)
      → serve_repository os repo_id rel_path raw_start raw_end lookup ≡ served text
      → IsServed repo_id rel_path text
  unfolding serve_repository
  repository-served none repo_id rel_path raw_start raw_end text e = cc
  repository-served (some none) repo_id rel_path raw_start raw_end text e = cc
  repository-served (some (some repo)) repo_id rel_path raw_start raw_end text e =
      elim (Bool-cases (clone_exists os repo_id)) [
        | inl there ↦
            IsBelow-served rel_path raw_start raw_end text (os.abs (repo_dir_for repo_id))
              (rw there at e)
        | inr lost ↦ let no : unavailable ≡ served text = rw lost at e in cc
      ]

  -- What GetFileContent serves is an excerpt of a file of at most 2 MB. The file's absolute path is the
  -- clone's directory, or that directory, a slash and a rest.
  pub get_file_content-IsServed :
      (lookup : Option (Option Repository)) (repo_id rel_path raw_start raw_end text : Text)
      → get_file_content os lookup repo_id rel_path raw_start raw_end ≡ served text
      → IsServed repo_id rel_path text
  unfolding get_file_content
  get_file_content-IsServed lookup repo_id rel_path raw_start raw_end text e =
      elim (Bool-cases (is_empty rel_path || os.is_abs rel_path)) [
        | inl refused ↦ let no : bad_request ≡ served text = rw refused at e in cc
        | inr taken ↦
            repository-served lookup repo_id rel_path raw_start raw_end text (rw taken at e)
      ]
