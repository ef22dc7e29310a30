-- ===== src/Store/Files/EdgeLaws.antt =====
-- What the writes do to the call edges of one file.
use know_your_repo.Prelude.{
  ℕ, ◌≡◌, refl, Bool, true, false, not, List, [], ◌∷◌, ◌++◌, select, arith, if◌then◌else◌,
}
use know_your_repo.Text.{Text, same, same_iff}
use know_your_repo.Store.{Db, CallEdge, Symbol}
use know_your_repo.Store.Files.{
  is_edge_of, delete_file_by_path, delete_symbols_and_call_edges, insert_file, insert_symbol,
  insert_call_edge,
}

-- The call edges on record for a file.
pub edges_of : Text → Text → Db → List CallEdge
unfolding is_edge_of
edges_of repo path db = select (is_edge_of repo path) db.call_edges

select-append {ℓ} :
    {A : Type ℓ} (p : A → Bool) (xs ys : List A) → select p (xs ++ ys) ≡ select p xs ++ select p ys
select-append p [] ys = refl
select-append p (x ∷ xs) ys = ground (arith, select-append p xs ys)

select-complement {ℓ} :
    {A : Type ℓ} (p : A → Bool) (xs : List A) → select p (select (λ x. not (p x)) xs) ≡ []
select-complement p [] = refl
select-complement p (x ∷ xs) = ground (arith, select-complement p xs)

module _ (repo path other : Text) (differ : same other path ≡ false) where
  apart : (e : CallEdge) → is_edge_of repo other e ≡ true → is_edge_of repo path e ≡ false
  unfolding is_edge_of
  apart e h = ground (
    arith,
    same_iff e.caller_file_path other,
    same_iff e.caller_file_path path,
    same_iff other path,
  )

  select-apart :
      (es : List CallEdge)
      → select (is_edge_of repo other) (select (λ e. not (is_edge_of repo path e)) es)
        ≡ select (is_edge_of repo other) es
  select-apart [] = refl
  select-apart (e ∷ es) = ground (arith, select-apart es, apart e)

  pub edges_of-delete_other :
      (db : Db) → edges_of repo other (delete_file_by_path repo path db) ≡ edges_of repo other db
  unfolding edges_of delete_file_by_path
  edges_of-delete_other db = select-apart db.call_edges

  pub edges_of-clear_other :
      (id : ℕ) (db : Db)
      → edges_of repo other (delete_symbols_and_call_edges repo id path db) ≡ edges_of repo other db
  unfolding edges_of delete_symbols_and_call_edges
  edges_of-clear_other id db = select-apart db.call_edges

module _ (repo path : Text) where
  pub edges_of-delete : (db : Db) → edges_of repo path (delete_file_by_path repo path db) ≡ []
  unfolding edges_of delete_file_by_path
  edges_of-delete db = select-complement (is_edge_of repo path) db.call_edges

  pub edges_of-clear :
      (id : ℕ) (db : Db) → edges_of repo path (delete_symbols_and_call_edges repo id path db) ≡ []
  unfolding edges_of delete_symbols_and_call_edges
  edges_of-clear id db = select-complement (is_edge_of repo path) db.call_edges

  pub edges_of-insert_file :
      (at language hash : Text) (db : Db)
      → edges_of repo path (insert_file repo at language hash db).1 ≡ edges_of repo path db
  unfolding edges_of insert_file
  edges_of-insert_file at language hash db = refl

  pub edges_of-insert_symbol :
      (s : Symbol) (db : Db) → edges_of repo path (insert_symbol s db) ≡ edges_of repo path db
  unfolding edges_of insert_symbol
  edges_of-insert_symbol s db = refl

  pub edges_of-insert_call_edge :
      (e : CallEdge) (db : Db)
      → edges_of repo path (insert_call_edge e db)
        ≡ edges_of repo path db ++ (if is_edge_of repo path e then e ∷ [] else [])
  unfolding edges_of insert_call_edge
  edges_of-insert_call_edge e db = select-append (is_edge_of repo path) db.call_edges (e ∷ [])
