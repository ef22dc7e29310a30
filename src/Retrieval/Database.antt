-- ===== src/Retrieval/Database.antt =====
-- The queries that a retrieval makes, answered by the tables of the store.
pub mod OnRecord
use know_your_repo.Prelude.{List, Option, some}
use know_your_repo.Text.{Text}
use know_your_repo.Store.{Db, CallEdge}
use know_your_repo.Store.Reads.{
  list_symbols, search_call_edges_by_callee_substring, get_outgoing_calls, get_incoming_calls,
}
use know_your_repo.Retrieval.{Lookups}

-- For one repository, with the disk and the order in which a map is visited given; no query fails.
unfoldable pub lookups_of :
    (Text → Option Text)
    → (List (Text × List CallEdge) → List (Text × List CallEdge))
    → Text
    → Db
    → Lookups
unfolding list_symbols search_call_edges_by_callee_substring get_outgoing_calls get_incoming_calls
lookups_of read_file visit_order repo db = record {
  list_symbols = λ search. some (list_symbols repo search db);
  search_call_edges = λ substr. some (search_call_edges_by_callee_substring repo substr db);
  get_outgoing_calls = λ file_path symbol. some (get_outgoing_calls repo file_path symbol db);
  get_incoming_calls = λ callee. some (get_incoming_calls repo callee db);
  read_file = read_file;
  visit_order = visit_order;
}
