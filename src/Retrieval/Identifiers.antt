-- ===== src/Retrieval/Identifiers.antt =====
-- The identifiers in a question: extractCandidateIdentifiers of api/internal/retrieval/lexical.go.
pub mod Chosen
use know_your_repo.Prelude.{
  ℕ, ◌+◌, Bool, true, false, not, ◌&&◌, ◌||◌, List, [], ◌∷◌, ◌++◌, map, length, leb, ltb, ◌==◌,
  if◌then◌else◌,
}
use know_your_repo.Text.{Text, codes, to_lower, is_among, is_empty}

abbrev pub max_lexical_candidates : ℕ
max_lexical_candidates = 5

abbrev pub lexical_stop_words : List Text
lexical_stop_words = map codes (
    "what" ∷ "does" ∷ "did" ∷ "do" ∷ "this" ∷ "that" ∷ "which" ∷ "the" ∷ "and" ∷ "for" ∷ "with"
    ∷ "how" ∷ "where" ∷ "when" ∷ "who" ∷ "why" ∷ "have" ∷ "has" ∷ "had" ∷ "here" ∷ "there" ∷ "about"
    ∷ "into" ∷ "call" ∷ "calls" ∷ "called" ∷ "calling" ∷ "function" ∷ "method" ∷ "class" ∷ "repo"
    ∷ "repository" ∷ "code" ∷ "file" ∷ "line" ∷ "give" ∷ "tell" ∷ "explain" ∷ "describe" ∷ "show"
    ∷ "you" ∷ "your" ∷ "its" ∷ "was" ∷ "were" ∷ "are" ∷ "is" ∷ "of" ∷ "on" ∷ "to" ∷ "me"
    ∷ "recently" ∷ [])

is_digit : ℕ → Bool
is_digit c = leb b'0' c && leb c b'9'

-- `[A-Za-z0-9_]`
is_word : ℕ → Bool
unfolding is_digit
is_word c =
    (leb b'A' c && leb c b'Z') || ((leb b'a' c && leb c b'z') || (is_digit c || (c == b'_')))

-- The longest runs of word characters, and the characters between them.
pub data Token : Type 0 where
  word : Text → Token
  dot : Token
  gap : Token

join_word : ℕ → List Token → List Token
join_word c (word w ∷ ts) = word (c ∷ w) ∷ ts
join_word c [] = word (c ∷ []) ∷ []
join_word c (dot ∷ ts) = word (c ∷ []) ∷ dot ∷ ts
join_word c (gap ∷ ts) = word (c ∷ []) ∷ gap ∷ ts

unfoldable pub tokens : Text → List Token
unfolding is_word join_word
tokens [] = []
tokens (c ∷ s) =
    let rest = tokens s in
    if is_word c then join_word c rest else (if c == b'.' then dot else gap) ∷ rest

-- `[A-Za-z_][A-Za-z0-9_]*`, for a run of word characters.
unfoldable pub is_name : Text → Bool
unfolding is_digit
is_name [] = false
is_name (c ∷ w) = not (is_digit c)

-- plainIdentifierPattern
unfoldable pub plain_identifiers : List Token → List Text
unfolding is_name
plain_identifiers [] = []
plain_identifiers (word w ∷ ts) =
    if is_name w then w ∷ plain_identifiers ts else plain_identifiers ts
plain_identifiers (dot ∷ ts) = plain_identifiers ts
plain_identifiers (gap ∷ ts) = plain_identifiers ts

-- The names joined by dots so far: none, one or more names, or names and a dot after them.
pub data Chain : Type 0 where
  idle : Chain
  named : Text → Bool → Chain
  dotted : Text → Bool → Chain

-- The chain is a match if it has a dot.
ended : Text → Bool → List Text → List Text
ended s qualified rest = if qualified then s ∷ rest else rest

-- dottedIdentifierPattern
unfoldable pub dotted_identifiers : Chain → List Token → List Text
unfolding is_name ended
dotted_identifiers idle [] = []
dotted_identifiers (named s q) [] = ended s q []
dotted_identifiers (dotted s q) [] = ended s q []
dotted_identifiers idle (word w ∷ ts) =
    dotted_identifiers (if is_name w then named w false else idle) ts
dotted_identifiers (named s q) (word w ∷ ts) = dotted_identifiers idle ts
dotted_identifiers (dotted s q) (word w ∷ ts) =
    let longer = dotted_identifiers (named (s ++ b'.' ∷ w) true) ts in
    let rest = ended s q (dotted_identifiers idle ts) in if is_name w then longer else rest
dotted_identifiers idle (dot ∷ ts) = dotted_identifiers idle ts
dotted_identifiers (named s q) (dot ∷ ts) = dotted_identifiers (dotted s q) ts
dotted_identifiers (dotted s q) (dot ∷ ts) = ended s q (dotted_identifiers idle ts)
dotted_identifiers idle (gap ∷ ts) = dotted_identifiers idle ts
dotted_identifiers (named s q) (gap ∷ ts) = ended s q (dotted_identifiers idle ts)
dotted_identifiers (dotted s q) (gap ∷ ts) = ended s q (dotted_identifiers idle ts)

pub record Picked : Type 0 where
  pub seen : List Text
  pub candidates : List Text

-- A token that is not looked up: too short, seen, or a common word.
unfoldable pub is_common : Text → Bool
unfolding is_among
is_common tok = is_among (to_lower tok) lexical_stop_words

abbrev pub is_passed_over : List Text → Text → Bool
is_passed_over seen tok = ltb (length tok) 3 || (is_among (to_lower tok) seen || is_common tok)

-- `add`
unfoldable pub add : Text → Picked → Picked
unfolding is_among is_common
add tok st =
    if leb max_lexical_candidates (length st.candidates)
    then st
    else if is_passed_over st.seen tok
    then st
    else record { seen = to_lower tok ∷ st.seen; candidates = st.candidates ++ tok ∷ [] }

unfoldable pub add_all : List Text → Picked → Picked
unfolding add
add_all [] st = st
add_all (tok ∷ toks) st = add_all toks (add tok st)

-- The matches of both patterns, the dotted first.
unfoldable pub matches : Text → List Text
unfolding dotted_identifiers plain_identifiers tokens
matches query = dotted_identifiers idle (tokens query) ++ plain_identifiers (tokens query)

abbrev pub none_picked : Picked
none_picked = record { seen = []; candidates = [] }

unfoldable pub extract_candidate_identifiers : Text → List Text
unfolding add_all matches
extract_candidate_identifiers query = (add_all (matches query) none_picked).candidates
