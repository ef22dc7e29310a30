-- ===== src/Context.antt =====
-- The budget of what is sent to the language model: the package contextbuilder.
pub mod Compressed
use know_your_repo.Prelude.{
  ℕ, ◌+◌, Bool, true, false, List, [], ◌∷◌, ◌++◌, map, length, take, leb, select, if◌then◌else◌,
}
use know_your_repo.Text.{Text, codes, same, is_among}
use know_your_repo.Answer.{RetrievalResult}
use know_your_repo.Retrieval.{GraphEdge, Details}

pub record ContextNode : Type 0 where
  pub symbol : Text
  pub document : Text
  pub calls : List Text

pub record ContextPackage : Type 0 where
  pub query : Text
  pub entries : List ContextNode

abbrev pub max_document_chars : ℕ
max_document_chars = 1200

abbrev pub max_calls_per_node : ℕ
max_calls_per_node = 10

abbrev pub truncated : Text
truncated = 10 ∷ codes "..(truncated)"

unfoldable pub truncate_document : Text → ℕ → Text
truncate_document doc max_chars =
    if leb (length doc) max_chars then doc else take max_chars doc ++ truncated

dedup_loop : List Text → List Text → List Text
unfolding is_among
dedup_loop seen [] = []
dedup_loop seen (c ∷ cs) =
    let rest = dedup_loop seen cs in
    let kept = c ∷ dedup_loop (c ∷ seen) cs in if is_among c seen then rest else kept

unfoldable pub deduplicate_calls : List Text → List Text
unfolding dedup_loop
deduplicate_calls calls = dedup_loop [] calls

unfoldable pub limit_calls : List Text → ℕ → List Text
limit_calls calls max_calls = if leb (length calls) max_calls then calls else take max_calls calls

module _ {F : Type 0} where
  -- What the symbol calls, by the edges found.
  abbrev pub callees_of : RetrievalResult (Details F) → List Text
  callees_of r = map (λ e. e.callee) (select (λ e. same e.caller r.symbol) r.rest.edges)

  unfoldable pub to_node : RetrievalResult (Details F) → ContextNode
  unfolding truncate_document deduplicate_calls limit_calls
  to_node r = record {
    symbol = r.symbol;
    document = truncate_document r.document max_document_chars;
    calls = limit_calls (deduplicate_calls (callees_of r)) max_calls_per_node;
  }

  unfoldable pub build : Text → List (RetrievalResult (Details F)) → ContextPackage
  unfolding to_node
  build query results = record { query = query; entries = map to_node results }
