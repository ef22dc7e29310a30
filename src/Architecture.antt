-- ===== src/Architecture.antt =====
-- api/internal/architecture: what is told of a repository's structure.
pub mod Reading
pub mod Detect
pub mod Analyze
pub mod Narrative
use know_your_repo.Prelude.{ℕ, List}
use know_your_repo.Text.{Text}

-- store.ArchitectureFile; the repository's id is not read.
pub record ArchitectureFile : Type 0 where
  pub id : ℕ
  pub path : Text
  pub language : Text

-- store.ArchitectureSymbol
pub record ArchitectureSymbol : Type 0 where
  pub id : ℕ
  pub file_id : ℕ
  pub name : Text
  pub type : Text
  pub start_line : ℕ
  pub end_line : ℕ

-- store.ArchitectureCallEdge
pub record ArchitectureCallEdge : Type 0 where
  pub caller_symbol : Text
  pub caller_file_path : Text
  pub callee_symbol : Text

pub record EntryPoint : Type 0 where
  pub name : Text
  pub file_path : Text
  pub language : Text
  pub type : Text

pub record Statistics : Type 0 where
  pub file_count : ℕ
  pub symbol_count : ℕ
  pub call_edges : ℕ

pub record Component : Type 0 where
  pub name : Text
  pub file_path : Text
  pub type : Text
  pub language : Text
  pub start_line : ℕ
  pub end_line : ℕ

-- Concept of models.go and store.Concept, which have the same fields.
pub record Concept : Type 0 where
  pub term : Text
  pub explanation : Text
  pub symbol : Text
  pub file_path : Text
  pub start_line : ℕ
  pub end_line : ℕ

-- store.RepositoryOverview
pub record Overview : Type 0 where
  pub narrative_summary : Text
  pub concepts : List Concept
