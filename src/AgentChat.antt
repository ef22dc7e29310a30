-- ===== src/AgentChat.antt =====
-- The handler of a chat request: Chat of api/internal/api/agent_chat.go, with BuildConversationContext of
-- api/internal/chat/prompt_builder.go. The lookup of the repository is given; `none` is an error. The store of
-- conversations holds runes: `runes` and `bytes` convert.
pub mod Remembered
use know_your_repo.Prelude.{
  ℕ, Bool, true, false, not, ◌&&◌, ◌||◌, List, [], ◌∷◌, ◌++◌, map, Option, some, none, length, ltb,
  if◌then◌else◌,
}
use know_your_repo.Text.{Text, codes, same, is_empty, trim_space}
use know_your_repo.Store.{Repository}
use know_your_repo.Answer.{RetrievalResult}
use know_your_repo.Retrieval.{Details, Value, Metadata}
use know_your_repo.Answer.Service.{Services, answer}
use know_your_repo.Chat.{Message, recent_messages, add_message}
use know_your_repo.Chat

abbrev pub chat_history_turns : ℕ
chat_history_turns = 6

abbrev pub max_session_id_chars : ℕ
max_session_id_chars = 128

pub record ChatRequest : Type 0 where
  pub repo_id : Text
  pub question : Text
  pub session_id : Text

pub record Source : Type 0 where
  pub symbol : Text
  pub file_path : Text
  pub start_line : ℕ
  pub end_line : ℕ

pub record AgentChatResponse : Type 0 where
  pub answer : Text
  pub tools : List Text
  pub refreshing : Bool
  pub sources : List Source

-- The responses by their status.
pub data Reply : Type 0 where
  bad_request : Reply
  not_found : Reply
  internal_error : Reply
  ok : AgentChatResponse → Reply

unfoldable metadata_int : Metadata → Text → ℕ
unfolding same
metadata_int [] name = 0
metadata_int (m ∷ ms) name =
    let rest = metadata_int ms name in
    if same m.0 name
    then elim m.1 [ Value.number n ↦ n | Value.text s ↦ 0 | Value.other ↦ 0 ]
    else rest

module _ {F : Type 0} where
  unfoldable pub build_sources : List (RetrievalResult (Details F)) → List Source
  unfolding metadata_int is_empty same
  build_sources [] = []
  build_sources (r ∷ rs) =
      let rest = build_sources rs in
      if same r.symbol (codes "architecture_overview") || is_empty r.file_path
      then rest
      else record {
        symbol = r.symbol;
        file_path = r.file_path;
        start_line = metadata_int r.rest.metadata (codes "start_line");
        end_line = metadata_int r.rest.metadata (codes "end_line");
      }
        ∷ rest

  has_origin : Text → List (RetrievalResult (Details F)) → Bool
  unfolding same
  has_origin origin [] = false
  has_origin origin (r ∷ rs) = same r.origin origin || has_origin origin rs

  has_overview : List (RetrievalResult (Details F)) → Bool
  unfolding same
  has_overview [] = false
  has_overview (r ∷ rs) = same r.symbol (codes "architecture_overview") || has_overview rs

  unfoldable pub tools_used : List (RetrievalResult (Details F)) → List Text
  unfolding has_origin has_overview
  tools_used results =
      (if has_origin (codes "semantic") results then codes "semantic" ∷ [] else [])
      ++ (if has_origin (codes "lexical") results then codes "lexical" ∷ [] else [])
      ++ (if has_overview results then codes "architecture" ∷ [] else [])

unfoldable pub build_conversation_context : List Message → Text
build_conversation_context [] = []
build_conversation_context (m ∷ ms) =
    m.role ++ codes ": " ++ m.content ++ 10 ∷ build_conversation_context ms

-- What the handler depends on: the services of answers, the limit of a question, the conversion of texts, and the
-- times of the three calls of the chat store.
pub record Context (F : Type 0) : Type 0 where
  pub services : Services F
  pub max_question_chars : ℕ
  pub runes : Text → Text
  pub bytes : Text → Text
  pub read_at : ℕ
  pub asked_at : ℕ
  pub answered_at : ℕ

module _ {F : Type 0} (c : Context F) where
  -- After the answer service.
  unfoldable pub finish :
      Text
      → Bool × Option (Text × List (RetrievalResult (Details F)))
      → Chat.Store
      → Reply × Chat.Store
  unfolding add_message tools_used build_sources
  finish session_id (refreshing, none) store = (internal_error, store)
  finish session_id (refreshing, some (text, results)) store = (
    ok (record {
      answer = text;
      tools = tools_used results;
      refreshing = refreshing;
      sources = build_sources results;
    }),
    add_message session_id (codes "assistant") (c.runes text) c.answered_at store,
  )

  -- From the chat history on.
  unfoldable pub converse : Text → Text → Text → Chat.Store → Reply × Chat.Store
  unfolding finish answer recent_messages build_conversation_context
  converse repo_id session_id question store =
      let history =
        build_conversation_context
          (recent_messages session_id chat_history_turns c.read_at store) in
      finish session_id (answer c.services repo_id question (c.bytes history))
        (add_message session_id (codes "user") (c.runes question) c.asked_at store)

  unfoldable pub require_repo_exists :
      Text → Text → Text → Option (Option Repository) → Chat.Store → Reply × Chat.Store
  unfolding converse
  require_repo_exists repo_id session_id question none store = (internal_error, store)
  require_repo_exists repo_id session_id question (some none) store = (not_found, store)
  require_repo_exists repo_id session_id question (some (some repo)) store =
      converse repo_id session_id question store

  -- The request is refused.
  abbrev pub is_refused : ChatRequest → Bool
  is_refused req =
      (is_empty (trim_space req.question) || is_empty req.repo_id)
      || (ltb c.max_question_chars (length (trim_space req.question))
          || ltb max_session_id_chars (length req.session_id))

  -- Chat; `none` is a body that cannot be read.
  unfoldable pub chat :
      Option ChatRequest → Option (Option Repository) → Chat.Store → Reply × Chat.Store
  unfolding require_repo_exists trim_space is_empty
  chat none lookup store = (bad_request, store)
  chat (some req) lookup store =
      if is_refused req
      then (bad_request, store)
      else require_repo_exists req.repo_id req.session_id (trim_space req.question) lookup store
