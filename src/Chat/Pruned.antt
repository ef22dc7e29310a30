-- ===== src/Chat/Pruned.antt =====
-- What the removal of the expired sessions changes for those who read.
use mathlib.Core.Path.{subst}
use know_your_repo.Prelude.{
  ℕ, ◌≡◌, refl, sym, ap, ◌∙◌, true, not, List, [], ◌∷◌, Option, some, none, select, Bool-cases, inl,
  inr, if◌then◌else◌,
}
use know_your_repo.Text.{Text, same, same_refl, same-cases}
use know_your_repo.Chat.{
  Conversation, Store, Message, lookup, expired, live_messages, recent_messages, prune_expired,
  last_n,
}

-- A map has one entry for a key.
abbrev pub IsMap : List (Text × Conversation) → Type 0
IsMap [] = Unit
IsMap ((k, _) ∷ es) = (lookup k es ≡ none) × IsMap es

module _ (s : Store) (now : ℕ) (id : Text) where
  abbrev live : Option Conversation → List Message
  live c = live_messages s id now c

  live_messages-prune_expired :
      (c : Option Conversation) → live_messages (prune_expired now s) id now c ≡ live c
  unfolding live_messages expired prune_expired
  live_messages-prune_expired none = refl
  live_messages-prune_expired (some c) = refl

  live-expired : (c : Conversation) → expired s c now ≡ true → live (some c) ≡ []
  unfolding live_messages
  live-expired c old = rw old

  live-none : live none ≡ []
  unfolding live_messages
  live-none = refl

  abbrev kept : List (Text × Conversation) → List (Text × Conversation)
  kept es = select (λ e. not (expired s e.1 now)) es

  dropped :
      (k : Text) (c : Conversation) (es : List (Text × Conversation))
      → expired s c now ≡ true
      → lookup k es ≡ none
      → live (lookup id es) ≡ live (lookup id ((k, c) ∷ es))
  unfolding lookup
  dropped k c es old alone = elim (same-cases k id) [
    | inl here ↦
        subst (λ j. live (lookup j es) ≡ live (if same k j then some c else lookup j es)) here
          (ap live alone ∙ live-none ∙ rw (same_refl k) (sym (live-expired c old)))
    | inr away ↦ rw away
  ]

  live-kept :
      (es : List (Text × Conversation))
      → IsMap es
      → live (lookup id (kept es)) ≡ live (lookup id es)
  unfolding lookup
  live-kept [] h = refl
  live-kept ((k, c) ∷ es) (alone, h) = elim (Bool-cases (expired s c now)) [
    | inl old ↦ rw old (live-kept es h ∙ dropped k c es old alone)
    | inr young ↦
        rw young (elim (Bool-cases (same k id)) [
          | inl here ↦ rw here
          | inr away ↦ rw away (live-kept es h)
        ])
  ]

  live-pruned :
      IsMap s.conversations
      → live (lookup id (prune_expired now s).conversations) ≡ live (lookup id s.conversations)
  unfolding prune_expired
  live-pruned h = live-kept s.conversations h

  -- Where no key has two entries, removing the expired sessions does not change what is read, from any
  -- session, at that time.
  pub recent_messages-prune_expired :
      (limit : ℕ)
      → IsMap s.conversations
      → recent_messages id limit now (prune_expired now s) ≡ recent_messages id limit now s
  unfolding recent_messages
  recent_messages-prune_expired limit h =
      ap (last_n limit) (
        live_messages-prune_expired (lookup id (prune_expired now s).conversations) ∙ live-pruned h)
