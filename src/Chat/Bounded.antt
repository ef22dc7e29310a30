-- ===== src/Chat/Bounded.antt =====
-- The bounds of the chat history.
use know_your_repo.Prelude.{
  ℕ, ◌+◌, ◌-◌, ◌≤◌, ◌≡◌, sym, Bool, true, false, not, ◌||◌, List, [], ◌∷◌, ◌++◌, length, ltb,
  if◌then◌else◌, arith, All, length-drop, length-select-le, ◌⊎◌, Bool-cases, inl, inr,
}
use know_your_repo.Text.{Text, same, is_empty, same_refl}
use mathlib.Core.Path.{subst}
use know_your_repo.Chat.{
  Conversation, Store, last_n, put, older, find_oldest, remove, evict_oldest, updated, add_message,
  live_messages, lookup, truncate, max_messages_per_session,
}

-- An entry of a store within its bounds: an identifier that is not empty, at most 20 messages.
abbrev pub IsBounded : Text × Conversation → Type 0
IsBounded e = (is_empty e.0 ≡ false) × (length e.1.messages ≤ max_messages_per_session)

abbrev pub IsWithin : Store → Type 0
IsWithin s = (length s.conversations ≤ s.max_sessions) × All IsBounded s.conversations

length-last_n {ℓ} : {A : Type ℓ} (n : ℕ) (xs : List A) → length (last_n n xs) ≤ n
length-last_n n xs = ground (arith, length-drop (length xs - n) xs)

updated-few :
    (s : Store) (id role content : Text) (now : ℕ)
    → length (updated s id role content now).messages ≤ max_messages_per_session
unfolding updated
updated-few s id role content now = length-last_n max_messages_per_session (
    live_messages s id now (lookup id s.conversations)
    ++ record { role = role; content = truncate content } ∷ [])

pub length-put :
    (id : Text) (c : Conversation) (es : List (Text × Conversation))
    → length (put id c es) ≤ length es + 1
unfolding put
length-put id c [] = omega arith
length-put id c ((k, d) ∷ es) = ground (arith, length-put id c es)

put-All :
    (id : Text) (c : Conversation) (es : List (Text × Conversation))
    → IsBounded (id, c)
    → All IsBounded es
    → All IsBounded (put id c es)
unfolding put
put-All id c [] new old = (new, old)
put-All id c ((k, d) ∷ es) new (first, old) = elim (Bool-cases (same k id)) [
  | inl here ↦ rw here ((first.0, new.1), old)
  | inr there ↦ rw there (first, put-All id c es new old)
]

has_key : Text → List (Text × Conversation) → Bool
has_key id [] = false
has_key id ((k, _) ∷ es) = same k id || has_key id es

remove-All :
    (id : Text) (es : List (Text × Conversation)) → All IsBounded es → All IsBounded (remove id es)
unfolding remove
remove-All id [] old = old
remove-All id ((k, d) ∷ es) (first, old) = elim (Bool-cases (same k id)) [
  | inl here ↦ rw here (remove-All id es old)
  | inr there ↦ rw there (first, remove-All id es old)
]

length-remove :
    (id : Text) (es : List (Text × Conversation))
    → has_key id es ≡ true
    → length (remove id es) + 1 ≤ length es
unfolding remove has_key
length-remove id [] h = cc
length-remove id ((k, d) ∷ es) h =
    ground (arith, length-remove id es, length-select-le (λ e. not (same e.0 id)) es)

older-cases :
    (best next : Text × ℕ)
    → is_empty best.0 ≡ false
    → ((older best next ≡ best) × (best.1 ≤ next.1))
      ⊎ ((older best next ≡ next) × (next.1 ≤ best.1))
unfolding older
older-cases best next named = elim (Bool-cases (ltb next.1 best.1)) [
  | inl lower ↦ inr (rw (named, lower), ground arith)
  | inr higher ↦ inl (rw (named, higher), ground arith)
]

-- The scan ends at the entry it starts from, or at one it visits, and none is older.
abbrev IsFound : List (Text × Conversation) → Text × ℕ → Text × ℕ → Type 0
IsFound es best found =
    (is_empty found.0 ≡ false)
    × ((same best.0 found.0 || has_key found.0 es) ≡ true)
    × (found.1 ≤ best.1)
    × All (λ e. found.1 ≤ e.1.last_active) es

module _ (k : Text) (d : Conversation) (es : List (Text × Conversation))
    (best found : Text × ℕ) where
  found-kept : best.1 ≤ d.last_active → IsFound es best found → IsFound ((k, d) ∷ es) best found
  unfolding has_key
  found-kept h (n, m, l, a) = (n, ground (arith, m), l, (omega (arith, l, h), a))

  found-moved :
      d.last_active ≤ best.1
      → IsFound es (k, d.last_active) found
      → IsFound ((k, d) ∷ es) best found
  unfolding has_key
  found-moved h (n, m, l, a) = (n, ground (arith, m), omega (arith, l, h), (l, a))

find_oldest-IsFound :
    (es : List (Text × Conversation)) (best : Text × ℕ)
    → is_empty best.0 ≡ false
    → All IsBounded es
    → IsFound es best (find_oldest es best)
unfolding find_oldest has_key
find_oldest-IsFound [] best named old = (named, ground (arith, same_refl best.0), omega arith, _)
find_oldest-IsFound ((k, d) ∷ es) best named (first, old) =
    elim (older-cases best (k, d.last_active) named) [
      | inl (e, h) ↦
          subst (λ b. IsFound ((k, d) ∷ es) best (find_oldest es b)) (sym e)
            (found-kept k d es best _ h (find_oldest-IsFound es best named old))
      | inr (e, h) ↦
          subst (λ b. IsFound ((k, d) ∷ es) best (find_oldest es b)) (sym e)
            (found-moved k d es best _ h (find_oldest-IsFound es (k, d.last_active) first.0 old))
    ]

-- The scan of evictOldest starts from the empty identifier, and takes the first entry.
evict_oldest-All :
    (es : List (Text × Conversation)) → All IsBounded es → All IsBounded (evict_oldest es)
unfolding evict_oldest
evict_oldest-All es old = elim (Bool-cases (is_empty (find_oldest es ([], 0)).0)) [
  | inl nothing ↦ rw nothing old
  | inr found ↦ rw found (remove-All _ es old)
]

length-evict_oldest :
    (k : Text) (d : Conversation) (es : List (Text × Conversation))
    → All IsBounded ((k, d) ∷ es)
    → length (evict_oldest ((k, d) ∷ es)) + 1 ≤ length ((k, d) ∷ es)
unfolding evict_oldest find_oldest older has_key is_empty
length-evict_oldest k d es (first, old) =
    let (n, m, _, _) = find_oldest-IsFound es (k, d.last_active) first.0 old in
    rw n (length-remove _ ((k, d) ∷ es) m)

within_evict :
    (max : ℕ) (es : List (Text × Conversation))
    → length es ≤ max + 1
    → All IsBounded es
    → length (if ltb max (length es) then evict_oldest es else es) ≤ max
within_evict max [] h old = ground arith
within_evict max ((k, d) ∷ es) h old = ground (arith, length-evict_oldest k d es old)

if-All :
    (t : Bool) (xs ys : List (Text × Conversation))
    → All IsBounded xs
    → All IsBounded ys
    → All IsBounded (if t then xs else ys)
if-All true xs ys h k = h
if-All false xs ys h k = k

-- Adding a message under an identifier that is not empty keeps a store within its bounds: at most
-- max_sessions conversations, none under the empty identifier, and at most 20 messages in each.
pub add_message-IsWithin :
    (id role content : Text) (now : ℕ) (s : Store)
    → is_empty id ≡ false
    → IsWithin s
    → IsWithin (add_message id role content now s)
unfolding add_message
add_message-IsWithin id role content now s named (few, old) =
    let entries = put id (updated s id role content now) s.conversations in
    let kept =
      put-All id (updated s id role content now) s.conversations
        (named, updated-few s id role content now) old in
    (
      within_evict s.max_sessions entries
          (omega (arith, few, length-put id (updated s id role content now) s.conversations)) kept,
      if-All (ltb s.max_sessions (length entries)) _ _ (evict_oldest-All entries kept) kept,
    )
