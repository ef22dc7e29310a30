-- ===== src/Examples/Conversations.antt =====
-- Runs of the chat handler and of the rate limiter.
use know_your_repo.Prelude.{
  ℕ, ◌-◌, ◌==◌, ◌≡◌, refl, Bool, true, false, [], ◌∷◌, some, none, arith, select, if◌then◌else◌,
}
use know_your_repo.Text.{
  codes, same, is_among, to_lower, lower_byte, any_contained, contains, has_prefix, is_empty,
  trim_space, trim_left, trim_right, is_space,
}
use know_your_repo.Store.{Repository}
use know_your_repo.Answer.{merge_results, merge_loop}
use know_your_repo.Retrieval.Identifiers.{extract_candidate_identifiers}
use know_your_repo.Retrieval.Lexical.{lexical_search}
use know_your_repo.Retrieval.Semantic.{search}
use know_your_repo.Answer.Service.{answer}
use know_your_repo.RateLimit.{decisions}
use know_your_repo.RateLimit.Separate.{decisions-select}
use know_your_repo.AgentChat.{ChatRequest, AgentChatResponse, Reply, Context, chat}
use know_your_repo.AgentChat.Remembered.{IsRemembered, chat-IsRemembered}
use know_your_repo.Examples.Answers.{services}
use know_your_repo.Chat

abbrev refilled : ℕ → ℕ → Bool × ℕ
refilled tokens now = if tokens == 0 then (false, 0) else (true, tokens - 1)

-- Buckets of one token.
decisions-select_example :
    decisions 1 refilled (codes "a") ((codes "b", 1) ∷ (codes "a", 2) ∷ (codes "a", 3) ∷ []) []
    ≡ decisions 1 refilled
        (codes "a")
        (select (λ r. same r.0 (codes "a")) ((codes "b", 1) ∷ (codes "a", 2) ∷ (codes "a", 3) ∷ []))
        []
decisions-select_example =
    decisions-select 1 refilled (codes "a") ((codes "b", 1) ∷ (codes "a", 2) ∷ (codes "a", 3) ∷ [])
      []

abbrev chat_context : Context ℕ
chat_context = record {
  services = services;
  max_question_chars = 100;
  runes = λ t. t;
  bytes = λ t. t;
  read_at = 1;
  asked_at = 1;
  answered_at = 3;
}

abbrev repository : Repository
repository = record {
  id = codes "r";
  repo_url = codes "u";
  created_at = 0;
  last_commit_sha = none;
  last_checked_at = none;
}

abbrev request_so : ChatRequest
request_so = record { repo_id = codes "r"; question = codes " so?"; session_id = codes "s" }

abbrev given : AgentChatResponse
given = record {
  answer = codes "so?";
  tools = codes "semantic" ∷ [];
  refreshing = false;
  sources =
      record {
        symbol = codes "HandleWord";
        file_path = codes "room.go";
        start_line = 0;
        end_line = 0;
      }
      ∷ [];
}

abbrev empty_store : Chat.Store
empty_store = record { conversations = []; max_sessions = 5; ttl = 60 }

answered_so :
    (chat chat_context (some request_so) (some (some repository)) empty_store).0 ≡ Reply.ok given
unfolding chat answer search is_among same to_lower lower_byte any_contained contains has_prefix
    is_empty merge_results merge_loop lexical_search extract_candidate_identifiers trim_space
    trim_left trim_right is_space
answered_so = refl

chat-IsRemembered_example :
    IsRemembered chat_context request_so given
      (chat chat_context (some request_so) (some (some repository)) empty_store).1
      10
chat-IsRemembered_example =
    chat-IsRemembered chat_context request_so (some (some repository)) empty_store given 10
      (omega arith) (omega arith) (omega arith) answered_so
