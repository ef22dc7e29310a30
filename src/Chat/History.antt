-- ===== src/Chat/History.antt =====
-- What a session reads back of what it wrote.
use know_your_repo.Prelude.{
  ℕ, ◌+◌, ◌-◌, ◌≤◌, ◌<◌, ◌≡◌, refl, sym, ap, ◌∙◌, true, false, List, [], ◌∷◌, ◌++◌, Option, some,
  none, length, drop, ltb, arith, length-drop, length-append, drop-append, drop-drop, Bool-cases,
  inl, inr,
}
use know_your_repo.Text.{Text, same, same_iff, same_refl}
use know_your_repo.Chat.{
  Conversation, Store, last_n, lookup, put, expired, live_messages, updated, add_message,
  recent_messages, truncate, max_messages_per_session,
}
use know_your_repo.Chat.Bounded.{length-put}

module _ (id : Text) (c : Conversation) where
  lookup-put : (es : List (Text × Conversation)) → lookup id (put id c es) ≡ some c
  unfolding lookup put
  lookup-put [] = rw (same_refl id)
  lookup-put ((k, d) ∷ es) = elim (Bool-cases (same k id)) [
    | inl here ↦ rw (here, here)
    | inr there ↦ rw (there, there) (lookup-put es)
  ]

  lookup-put_other :
      (j : Text) (es : List (Text × Conversation))
      → same id j ≡ false
      → lookup j (put id c es) ≡ lookup j es
  unfolding lookup put
  lookup-put_other j [] differ = rw differ
  lookup-put_other j ((k, d) ∷ es) differ = ground (arith, lookup-put_other j es, same_iff k id)

pub last_n-drop {ℓ} : {A : Type ℓ} (n : ℕ) (xs : List A) → last_n n xs ≡ drop (length xs - n) xs
last_n-drop n xs = elim (Bool-cases (ltb n (length xs))) [
  | inl long ↦ rw long
  | inr short ↦ rw short (ap (λ k. drop k xs) (none_over short))
]
  where
    none_over : ltb n (length xs) ≡ false → 0 ≡ length xs - n
    none_over short = ground arith

-- Keeping the last n before one more joins changes nothing to the last n after it.
last_n-last_n {ℓ} :
    {A : Type ℓ} (n : ℕ) (xs : List A) (x : A)
    → 1 ≤ n
    → last_n n (last_n n xs ++ x ∷ []) ≡ last_n n (xs ++ x ∷ [])
last_n-last_n {A} n xs x positive = elim (Bool-cases (ltb n (length xs))) [
  | inl long ↦
      last_n-drop n (last_n n xs ++ x ∷ [])
      ∙ ap (λ ys. drop (length (ys ++ x ∷ []) - n) (ys ++ x ∷ [])) (last_n-drop n xs)
      ∙ ap (λ k. drop k (kept ++ x ∷ [])) (one_more long)
      ∙ ap (drop 1) (sym (drop-append (length xs - n) xs (x ∷ []) (omega arith)))
      ∙ drop-drop 1 (length xs - n) (length (xs ++ x ∷ []) - n) (xs ++ x ∷ []) (joined long)
      ∙ sym (last_n-drop n (xs ++ x ∷ []))
  | inr short ↦ ap (λ ys. last_n n (ys ++ x ∷ [])) (ground arith)
]
  where
    kept : List A
    kept = drop (length xs - n) xs

    one_more : ltb n (length xs) ≡ true → length (kept ++ x ∷ []) - n ≡ 1
    one_more long = ground (arith, length-append kept (x ∷ []), length-drop (length xs - n) xs)

    joined : ltb n (length xs) ≡ true → 1 + (length xs - n) ≡ length (xs ++ x ∷ []) - n
    joined long = ground (arith, length-append xs (x ∷ []))

live_messages-add_message :
    (id role content : Text) (now : ℕ) (s : Store) (j : Text) (later : ℕ) (c : Option Conversation)
    → live_messages (add_message id role content now s) j later c ≡ live_messages s j later c
unfolding live_messages expired add_message
live_messages-add_message id role content now s j later none = refl
live_messages-add_message id role content now s j later (some c) = refl

fresh-updated :
    (id role content : Text) (now : ℕ) (s : Store) (later : ℕ)
    → later ≤ now + s.ttl
    → expired s (updated s id role content now) later ≡ false
unfolding expired updated
fresh-updated id role content now s later soon = ground arith

live_messages-updated :
    (id role content : Text) (now : ℕ) (s : Store) (later : ℕ)
    → later ≤ now + s.ttl
    → live_messages s id later (some (updated s id role content now))
      ≡ last_n max_messages_per_session (
          live_messages s id now (lookup id s.conversations)
          ++ record { role = role; content = truncate content } ∷ [])
unfolding live_messages expired updated
live_messages-updated id role content now s later soon =
    rw (fresh-updated id role content now s later soon)

module _ (id role content : Text) (now : ℕ) (s : Store)
    (room : length s.conversations < s.max_sessions) where
  pub conversations-add_message :
      (add_message id role content now s).conversations
      ≡ put id (updated s id role content now) s.conversations
  unfolding add_message
  conversations-add_message =
      ground (arith, length-put id (updated s id role content now) s.conversations)

  -- With room for a session more, and within the time to live of the message, a session reads back
  -- its latest messages: what it could read before, and after that the new message, cut to what is
  -- stored of it.
  pub recent_messages-add_message :
      (limit later : ℕ)
      → later ≤ now + s.ttl
      → recent_messages id limit later (add_message id role content now s)
        ≡ last_n limit (
            last_n max_messages_per_session (
              recent_messages id max_messages_per_session now s
              ++ record { role = role; content = truncate content } ∷ []))
  unfolding recent_messages
  recent_messages-add_message limit later soon = ap (last_n limit) (
      live_messages-add_message id role content now s id later
        (lookup id (add_message id role content now s).conversations)
      ∙ ap (live_messages s id later)
          (ap (lookup id) conversations-add_message ∙ lookup-put id _ s.conversations)
      ∙ live_messages-updated id role content now s later soon
      ∙ sym (
          last_n-last_n max_messages_per_session
            (live_messages s id now (lookup id s.conversations))
            (record { role = role; content = truncate content }) (omega arith)))

  -- With room for a session more, what another session reads is not changed by the new message.
  pub recent_messages-add_message_other :
      (j : Text) (limit later : ℕ)
      → same id j ≡ false
      → recent_messages j limit later (add_message id role content now s)
        ≡ recent_messages j limit later s
  unfolding recent_messages
  recent_messages-add_message_other j limit later differ = ap (last_n limit) (
      live_messages-add_message id role content now s j later
        (lookup j (add_message id role content now s).conversations)
      ∙ ap (live_messages s j later) (
          ap (lookup j) conversations-add_message ∙ lookup-put_other id _ j s.conversations differ))
