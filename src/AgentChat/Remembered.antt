-- ===== src/AgentChat/Remembered.antt =====
-- What a chat leaves in the history of its session.
use mathlib.Core.Path.{subst}
use mathlib.Core.List.{append_assoc}
use know_your_repo.Prelude.{
  ℕ, ◌+◌, ◌-◌, ◌≤◌, ◌<◌, ◌≡◌, refl, sym, ap, ◌∙◌, inl, inr, Bool, true, false, List, [], ◌∷◌, ◌++◌,
  Option, some, none, length, drop, arith, Bool-cases, length-append, drop-append,
  drop_of_length-le,
}
use know_your_repo.Text.{Text, codes, trim_space}
use know_your_repo.Store.{Repository}
use know_your_repo.Answer.{RetrievalResult}
use know_your_repo.Retrieval.{Details}
use know_your_repo.Answer.Service.{answer}
use know_your_repo.Chat.{
  Message, last_n, recent_messages, add_message, truncate, max_messages_per_session, put, updated,
}
use know_your_repo.Chat.History.{
  last_n-drop, recent_messages-add_message, conversations-add_message,
}
use know_your_repo.Chat.Bounded.{length-put}
use know_your_repo.Chat
use know_your_repo.AgentChat.{
  ChatRequest, AgentChatResponse, Reply, Context, finish, converse, require_repo_exists, is_refused,
  chat, chat_history_turns, build_conversation_context,
}

module _ {ℓ} {A : Type ℓ} where
  drop-last :
      (n : ℕ) (ys zs : List A)
      → length zs ≤ n
      → drop (length (ys ++ zs) - n) (ys ++ zs) ≡ drop (length (ys ++ zs) - n) ys ++ zs
  drop-last n ys zs h =
      drop-append (length (ys ++ zs) - n) ys zs (omega (arith, length-append ys zs))

  -- Keeping the last n keeps an end that is no longer.
  last_n-append :
      (n : ℕ) (ys zs : List A)
      → length zs ≤ n
      → (rest : List A) × (last_n n (ys ++ zs) ≡ rest ++ zs)
  last_n-append n ys zs h =
      (drop (length (ys ++ zs) - n) ys, last_n-drop n (ys ++ zs) ∙ drop-last n ys zs h)

  last_n-end : (n : ℕ) (ys zs : List A) → length zs ≡ n → last_n n (ys ++ zs) ≡ zs
  last_n-end n ys zs h =
      last_n-drop n (ys ++ zs)
      ∙ drop-last n ys zs (omega arith)
      ∙ ap (λ r. r ++ zs)
          (drop_of_length-le (length (ys ++ zs) - n) ys (omega (arith, length-append ys zs)))

-- A message as it is stored.
abbrev pub stored : Text → Text → Message
stored role content = record { role = role; content = truncate content }

module _ (id : Text) (store : Chat.Store)
    (room : length store.conversations + 1 < store.max_sessions) where
  room-add_message :
      (role content : Text) (now : ℕ)
      → length (add_message id role content now store).conversations < store.max_sessions
  room-add_message role content now = omega (
    arith,
    ap length (conversations-add_message id role content now store (omega arith)),
    length-put id (updated store id role content now) store.conversations,
  )

  -- Two messages of one session are read back, one after the other.
  two_messages :
      (q a : Text) (asked answered later : ℕ)
      → answered ≤ asked + store.ttl
      → later ≤ answered + store.ttl
      → recent_messages id 2 later (
          add_message id
            (codes "assistant")
            a
            answered
            (add_message id (codes "user") q asked store))
        ≡ stored (codes "user") q ∷ stored (codes "assistant") a ∷ []
  unfolding add_message
  two_messages q a asked answered later soon soon' =
      let n = max_messages_per_session in
      let s₁ = add_message id (codes "user") q asked store in
      let Q = stored (codes "user") q in
      let A = stored (codes "assistant") a in
      let (ys₁, e₁) = last_n-append n (recent_messages id n asked store) (Q ∷ []) (omega arith) in
      let (ys₂, e₂) = last_n-append n ys₁ (Q ∷ []) (omega arith) in
      let (ys₃, e₃) = last_n-append n ys₂ (Q ∷ A ∷ []) (omega arith) in
      let before : recent_messages id n answered s₁ ≡ ys₂ ++ Q ∷ [] =
        recent_messages-add_message id (codes "user") q asked store (omega arith) n answered soon
        ∙ ap (last_n n) e₁
        ∙ e₂ in
      recent_messages-add_message id (codes "assistant") a answered s₁
        (room-add_message (codes "user") q asked) 2 later soon'
      ∙ ap (λ ms. last_n 2 (last_n n (ms ++ A ∷ []))) before
      ∙ ap (λ ms. last_n 2 (last_n n ms)) (append_assoc ys₂ (Q ∷ []) (A ∷ []))
      ∙ ap (last_n 2) e₃
      ∙ last_n-end 2 ys₃ (Q ∷ A ∷ []) refl

ok_inj : {a b : AgentChatResponse} → Reply.ok a ≡ Reply.ok b → a ≡ b
ok_inj e = cc

not_ok : {a : AgentChatResponse} → ¬ (Reply.bad_request ≡ Reply.ok a)
not_ok e = cc

module _ {F : Type 0} (c : Context F) where
  -- The question and the answer are the session's last messages.
  abbrev pub IsRemembered : ChatRequest → AgentChatResponse → Chat.Store → ℕ → Type 0
  IsRemembered req given store later =
      recent_messages req.session_id 2 later store
      ≡ stored (codes "user") (c.runes (trim_space req.question))
        ∷ stored (codes "assistant") (c.runes given.answer)
        ∷ []

  finish-remembered :
      (id question : Text) (out : Bool × Option (Text × List (RetrievalResult (Details F))))
      (store : Chat.Store) (given : AgentChatResponse) (later : ℕ)
      → length store.conversations + 1 < store.max_sessions
      → c.answered_at ≤ c.asked_at + store.ttl
      → later ≤ c.answered_at + store.ttl
      → (finish c id out (add_message id (codes "user") question c.asked_at store)).0
        ≡ Reply.ok given
      → recent_messages id 2 later
          (finish c id out (add_message id (codes "user") question c.asked_at store)).1
        ≡ stored (codes "user") question ∷ stored (codes "assistant") (c.runes given.answer) ∷ []
  unfolding finish
  finish-remembered id question (refreshing, none) store given later room soon soon' e = cc
  finish-remembered id question (refreshing, some (text, results)) store given later room soon soon'
        e =
      let same_text : text ≡ given.answer = ap (λ (r : AgentChatResponse). r.answer) (ok_inj e) in
      two_messages id store room question (c.runes text) c.asked_at c.answered_at later soon soon'
      ∙ ap (λ t. stored (codes "user") question ∷ stored (codes "assistant") (c.runes t) ∷ [])
          same_text

  require-remembered :
      (repo_id id question : Text) (lookup : Option (Option Repository)) (store : Chat.Store)
      (given : AgentChatResponse) (later : ℕ)
      → length store.conversations + 1 < store.max_sessions
      → c.answered_at ≤ c.asked_at + store.ttl
      → later ≤ c.answered_at + store.ttl
      → (require_repo_exists c repo_id id question lookup store).0 ≡ Reply.ok given
      → recent_messages id 2 later (require_repo_exists c repo_id id question lookup store).1
        ≡ stored (codes "user") (c.runes question)
          ∷ stored (codes "assistant") (c.runes given.answer)
          ∷ []
  unfolding require_repo_exists converse
  require-remembered repo_id id question none store given later room soon soon' e = cc
  require-remembered repo_id id question (some none) store given later room soon soon' e = cc
  require-remembered repo_id id question (some (some repo)) store given later room soon soon' e =
      finish-remembered id (c.runes question)
        (answer c.services repo_id question (
          c.bytes
            (build_conversation_context (recent_messages id chat_history_turns c.read_at store))))
        store given later room soon soon' e

  chat-refused :
      (req : ChatRequest) (lookup : Option (Option Repository)) (store : Chat.Store)
      → is_refused c req ≡ true
      → chat c (some req) lookup store ≡ (Reply.bad_request, store)
  unfolding chat
  chat-refused req lookup store h = rw (chat, h) refl

  chat-taken :
      (req : ChatRequest) (lookup : Option (Option Repository)) (store : Chat.Store)
      → is_refused c req ≡ false
      → chat c (some req) lookup store
        ≡ require_repo_exists c req.repo_id req.session_id (trim_space req.question) lookup store
  unfolding chat
  chat-taken req lookup store h = rw (chat, h) refl

  -- A chat that is answered leaves the question and the answer, cut to what is stored of a message, as the
  -- last messages of its session, if the store has room for two sessions more and the times are within the
  -- time to live.
  pub chat-IsRemembered :
      (req : ChatRequest) (lookup : Option (Option Repository)) (store : Chat.Store)
      (given : AgentChatResponse) (later : ℕ)
      → length store.conversations + 1 < store.max_sessions
      → c.answered_at ≤ c.asked_at + store.ttl
      → later ≤ c.answered_at + store.ttl
      → (chat c (some req) lookup store).0 ≡ Reply.ok given
      → IsRemembered req given (chat c (some req) lookup store).1 later
  chat-IsRemembered req lookup store given later room soon soon' e =
      elim (Bool-cases (is_refused c req)) [
        | inl refused ↦ absurd (
            not_ok (
              sym (ap (λ (r : Reply × Chat.Store). r.0) (chat-refused req lookup store refused))
              ∙ e))
        | inr taken ↦
            let same_run = chat-taken req lookup store taken in
            subst (λ r. IsRemembered req given r.1 later) (sym same_run)
              (require-remembered req.repo_id req.session_id (trim_space req.question) lookup store
                given later room soon soon'
                (sym (ap (λ (r : Reply × Chat.Store). r.0) same_run) ∙ e))
      ]
