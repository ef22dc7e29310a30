-- ===== src/Examples/Requests.antt =====
-- Runs of what answers a request: its address, its URL, the chat history, the excerpts, the graph.
use know_your_repo.Prelude.{
  ◌+◌, ◌≡◌, ◌++◌, refl, true, false, List, [], ◌∷◌, Option, some, map, arith,
}
use know_your_repo.Text.{
  Text, codes, same, is_empty, split, push_front, trim_space, trim_left, trim_right, is_space,
  to_lower, lower_byte, has_suffix, is_among,
}
use know_your_repo.ClientIp.{Request, resolve_client_ip, comma, forwarded_for}
use know_your_repo.ClientIp.Spoof.{resolve_client_ip-spoofed}
use know_your_repo.Validate.{Url, normalize_github_url}
use know_your_repo.Chat.{
  Store, lookup, add_message, recent_messages, prune_expired, last_n, truncate,
  max_messages_per_session,
}
use know_your_repo.Chat.Bounded.{IsWithin, add_message-IsWithin}
use know_your_repo.Chat.History.{recent_messages-add_message, recent_messages-add_message_other}
use know_your_repo.Chat.Pruned.{recent_messages-prune_expired}
use know_your_repo.Snippet.{newline, extract_snippet}
use know_your_repo.Snippet.Adjacent.{extract-append}
use know_your_repo.BoundedGraph.{
  CallGraphEdge, GraphNode, build_bounded_graph_response, is_edge_seen, add_node, note_path,
  add_edge, add_callee, add_row, add_rows, root_only,
}
use know_your_repo.BoundedGraph.Nodes.{IsGraph}
use know_your_repo.BoundedGraph.Sound.{build-IsGraph, build-from_rows, build_complete, edges_of}

abbrev header_value : Text
header_value = codes "1.2.3.4, 10.0.0.1"

abbrev spoof : Text
spoof = codes "6.6.6.6"

abbrev from_peer : Text → Request
from_peer value = record { remote_addr = codes "9.9.9.9"; get_header = λ _. value }

resolve_client_ip-spoofed_example :
    resolve_client_ip some some (from_peer (spoof ++ comma ∷ header_value)) 2 forwarded_for
    ≡ resolve_client_ip some some (from_peer header_value) 2 forwarded_for
unfolding is_empty split push_front
resolve_client_ip-spoofed_example =
    resolve_client_ip-spoofed some some (codes "9.9.9.9") spoof header_value forwarded_for 2 refl
      (omega arith)

-- A parser that takes every text for a path on github.com.
abbrev parse_path : Text → Option Url
parse_path path = some (record {
  scheme = codes "https";
  hostname = codes "github.com";
  port = [];
  has_user = false;
  raw_query = [];
  fragment = [];
  opaque = [];
  path = path;
})

-- Of two suffixes one stays.
normalized_git_git :
    normalize_github_url parse_path (codes "o/a.git.git")
    ≡ some (codes "https://github.com/o/a.git")
unfolding normalize_github_url trim_space is_empty trim_right trim_left is_space same to_lower
    lower_byte split push_front has_suffix
normalized_git_git = refl

abbrev chat_store : Store
chat_store = record {
  conversations =
      (
        codes "s",
        record {
          session_id = codes "s";
          messages = record { role = codes "user"; content = codes "hi" } ∷ [];
          last_active = 5;
        },
      )
      ∷ [];
  max_sessions = 2;
  ttl = 60;
}

add_message-IsWithin_example :
    IsWithin (add_message (codes "t") (codes "user") (codes "yo") 7 chat_store)
unfolding is_empty
add_message-IsWithin_example =
    add_message-IsWithin (codes "t") (codes "user") (codes "yo") 7 chat_store refl
      (omega arith, ((refl, omega arith), tt))

recent_messages-add_message_example :
    recent_messages
      (codes "s")
      3
      10
      (add_message (codes "s") (codes "user") (codes "yo") 7 chat_store)
    ≡ last_n 3 (
        last_n max_messages_per_session (
          recent_messages (codes "s") max_messages_per_session 7 chat_store
          ++ record { role = codes "user"; content = truncate (codes "yo") } ∷ []))
recent_messages-add_message_example =
    recent_messages-add_message (codes "s") (codes "user") (codes "yo") 7 chat_store (omega arith) 3
      10 (omega arith)

recent_messages-add_message_other_example :
    recent_messages
      (codes "s")
      3
      10
      (add_message (codes "t") (codes "user") (codes "yo") 7 chat_store)
    ≡ recent_messages (codes "s") 3 10 chat_store
unfolding same
recent_messages-add_message_other_example =
    recent_messages-add_message_other (codes "t") (codes "user") (codes "yo") 7 chat_store
      (omega arith) (codes "s") 3 10 refl

-- Three lines.
abbrev lines_abc : Text
lines_abc = b'a' ∷ newline ∷ b'b' ∷ newline ∷ b'c' ∷ []

extract-append_example :
    extract_snippet lines_abc 1 1 ++ (newline ∷ extract_snippet lines_abc (1 + 1) 3)
    ≡ extract_snippet lines_abc 1 3
unfolding split push_front
extract-append_example =
    extract-append lines_abc 1 1 3 (omega arith) (omega arith) (omega arith) (omega arith)

abbrev rows : List CallGraphEdge
rows =
    record { caller = codes "f"; caller_file_path = codes "a.go"; callee = codes "g"; depth = 1 }
    ∷ record { caller = codes "g"; caller_file_path = codes "b.go"; callee = codes "f"; depth = 2 }
    ∷ []

build-IsGraph_example :
    IsGraph
      (map
        (λ (n : GraphNode). n.symbol)
        (build_bounded_graph_response (codes "r") (codes "f") 2 rows).nodes)
      (build_bounded_graph_response (codes "r") (codes "f") 2 rows).edges
build-IsGraph_example = build-IsGraph (codes "r") (codes "f") 2 rows

build-from_rows_example : is_edge_seen (codes "g", codes "f") (edges_of rows) ≡ true
unfolding build_bounded_graph_response is_edge_seen is_among add_node note_path add_edge add_callee
    add_row add_rows root_only same is_empty
build-from_rows_example = build-from_rows (codes "r") (codes "f") 2 rows (codes "g", codes "f") refl

build_complete_example :
    is_edge_seen
      (codes "g", codes "f")
      (build_bounded_graph_response (codes "r") (codes "f") 2 rows).edges
    ≡ true
unfolding build_bounded_graph_response is_edge_seen is_among add_node note_path add_edge add_callee
    add_row add_rows root_only same is_empty
build_complete_example =
    build_complete (codes "r") (codes "f") 2 rows refl (codes "g", codes "f") refl

-- At 100 the session is expired.
recent_messages-prune_expired_example :
    recent_messages (codes "s") 3 100 (prune_expired 100 chat_store)
    ≡ recent_messages (codes "s") 3 100 chat_store
unfolding lookup
recent_messages-prune_expired_example =
    recent_messages-prune_expired chat_store 100 (codes "s") 3 (refl, tt)
