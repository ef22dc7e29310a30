-- ===== src/Chat.antt =====
-- The chat history: api/internal/chat/store.go and models.go. The map of conversations is its list of
-- entries, in the order in which a `range` visits them; time is a number of seconds, 0 the zero time.
-- A content is its runes. Each method holds the lock, so it is one step.
pub mod Bounded
pub mod History
pub mod Pruned
use know_your_repo.Prelude.{
  ℕ, ◌+◌, ◌-◌, Bool, true, false, not, ◌&&◌, ◌||◌, List, [], ◌∷◌, ◌++◌, Option, some, none, length,
  take, drop, select, ltb, leb, ◌==◌, if◌then◌else◌,
}
use know_your_repo.Text.{Text, same, is_empty, codes}

abbrev pub max_messages_per_session : ℕ
max_messages_per_session = 20

abbrev pub max_stored_message_chars : ℕ
max_stored_message_chars = 1500

-- The runes of " …[truncated]".
abbrev truncation_marker : Text
truncation_marker = 32 ∷ 8230 ∷ codes "[truncated]"

pub record Message : Type 0 where
  pub role : Text
  pub content : Text

pub record Conversation : Type 0 where
  pub session_id : Text
  pub messages : List Message
  pub last_active : ℕ

pub record Store : Type 0 where
  pub conversations : List (Text × Conversation)
  pub max_sessions : ℕ
  pub ttl : ℕ

-- The defaults 1000 and 24 hours stand in for what is not positive.
pub new_store : ℕ → ℕ → Store
new_store max_sessions ttl = record {
  conversations = [];
  max_sessions = if max_sessions == 0 then 1000 else max_sessions;
  ttl = if ttl == 0 then 86400 else ttl;
}

abbrev pub truncate : Text → Text
truncate content =
    if leb (length content) max_stored_message_chars
    then content
    else take max_stored_message_chars content ++ truncation_marker

unfoldable pub expired : Store → Conversation → ℕ → Bool
expired s conv now = not (conv.last_active == 0) && ltb s.ttl (now - conv.last_active)

-- `xs[len(xs)-n:]` where there are more than n.
abbrev pub last_n {ℓ} : {A : Type ℓ} → ℕ → List A → List A
last_n n xs = if ltb n (length xs) then drop (length xs - n) xs else xs

-- `conversations[id]`
unfoldable pub lookup : Text → List (Text × Conversation) → Option Conversation
lookup id [] = none
lookup id ((k, c) ∷ rest) = if same k id then some c else lookup id rest

-- `conversations[id] = conv`
unfoldable pub put : Text → Conversation → List (Text × Conversation) → List (Text × Conversation)
put id conv [] = (id, conv) ∷ []
put id conv ((k, c) ∷ rest) =
    let rest' = put id conv rest in if same k id then (k, conv) ∷ rest else (k, c) ∷ rest'

-- One turn of the loop of evictOldest: the entry where there is none so far or it is older.
unfoldable older : Text × ℕ → Text × ℕ → Text × ℕ
older best next = if is_empty best.0 || ltb next.1 best.1 then next else best

-- The loop of evictOldest over the entries, from the oldest so far.
unfoldable find_oldest : List (Text × Conversation) → Text × ℕ → Text × ℕ
unfolding older
find_oldest [] best = best
find_oldest ((id, conv) ∷ rest) best = find_oldest rest (older best (id, conv.last_active))

remove : Text → List (Text × Conversation) → List (Text × Conversation)
remove id entries = select (λ e. not (same e.0 id)) entries

unfoldable pub evict_oldest : List (Text × Conversation) → List (Text × Conversation)
unfolding find_oldest remove
evict_oldest entries =
    let (oldest_id, _) = find_oldest entries ([], 0) in
    if is_empty oldest_id then entries else remove oldest_id entries

-- The messages that a new message joins: none for an unknown or expired session.
unfoldable pub live_messages : Store → Text → ℕ → Option Conversation → List Message
unfolding expired
live_messages s id now none = []
live_messages s id now (some conv) = if expired s conv now then [] else conv.messages

unfoldable pub updated : Store → Text → Text → Text → ℕ → Conversation
unfolding live_messages lookup
updated s id role content now = record {
  session_id = id;
  messages = last_n max_messages_per_session (
      live_messages s id now (lookup id s.conversations)
      ++ record { role = role; content = truncate content } ∷ []);
  last_active = now;
}

unfoldable pub add_message : Text → Text → Text → ℕ → Store → Store
unfolding updated put evict_oldest
add_message id role content now s =
    let entries = put id (updated s id role content now) s.conversations in
    record s {
      conversations = if ltb s.max_sessions (length entries) then evict_oldest entries else entries;
    }

unfoldable pub recent_messages : Text → ℕ → ℕ → Store → List Message
unfolding live_messages lookup
recent_messages id limit now s = last_n limit (live_messages s id now (lookup id s.conversations))

unfoldable pub prune_expired : ℕ → Store → Store
unfolding expired
prune_expired now s = record s {
  conversations = select (λ e. not (expired s e.1 now)) s.conversations;
}

pub len : Store → ℕ
len s = length s.conversations
