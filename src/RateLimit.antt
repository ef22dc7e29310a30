-- ===== src/RateLimit.antt =====
-- The rate limiter per key: getLimiter, one round of cleanupLoop and Middleware of api/internal/api/ratelimit.go.
-- rate.Limiter is a parameter: a type of buckets, the new bucket, and what Allow answers at a time and
-- makes of a bucket. The map of visitors is its list of entries; each call holds the lock, so it is one step.
pub mod Separate
use know_your_repo.Prelude.{
  ℕ, ◌-◌, Bool, true, false, not, List, [], ◌∷◌, ◌++◌, Option, some, none, select, ltb,
  if◌then◌else◌,
}
use know_your_repo.Text.{Text, same}

-- Ten minutes, in seconds.
abbrev pub visitor_limit_idle_timeout : ℕ
visitor_limit_idle_timeout = 600

pub record Visitor (L : Type 0) : Type 0 where
  pub limiter : L
  pub last_seen : ℕ

abbrev pub Visitors : Type 0 → Type 0
Visitors L = List (Text × Visitor L)

module _ {L : Type 0} where
  -- `visitors[key]`
  unfoldable pub find_visitor : Text → Visitors L → Option (Visitor L)
  unfolding same
  find_visitor key [] = none
  find_visitor key (v ∷ vs) = if same v.0 key then some v.1 else find_visitor key vs

  -- `visitors[key] = v`
  unfoldable pub put_visitor : Text → Visitor L → Visitors L → Visitors L
  unfolding same
  put_visitor key visitor [] = (key, visitor) ∷ []
  put_visitor key visitor (v ∷ vs) =
      let rest = put_visitor key visitor vs in
      if same v.0 key then (v.0, visitor) ∷ vs else v ∷ rest

  -- One round of cleanupLoop.
  unfoldable pub cleanup : ℕ → Visitors L → Visitors L
  cleanup now vs = select (λ v. not (ltb visitor_limit_idle_timeout (now - v.1.last_seen))) vs

  module _ (new_limiter : L) (allow : L → ℕ → Bool × L) where
    abbrev pub limiter_or_new : Option (Visitor L) → L
    limiter_or_new none = new_limiter
    limiter_or_new (some v) = v.limiter

    -- getLimiter
    unfoldable pub get_limiter : Text → Visitors L → L
    unfolding find_visitor
    get_limiter key vs = limiter_or_new (find_visitor key vs)

    -- Middleware: whether the request goes on. The bucket in the map is the one that Allow changes.
    unfoldable pub request : Text → ℕ → Visitors L → Bool × Visitors L
    unfolding get_limiter put_visitor
    request key now vs =
        let decision = allow (get_limiter key vs) now in
        (decision.0, put_visitor key (record { limiter = decision.1; last_seen = now }) vs)

    -- What the requests of one key are answered, among those of all.
    unfoldable pub decisions : Text → List (Text × ℕ) → Visitors L → List Bool
    unfolding request same
    decisions key [] vs = []
    decisions key (r ∷ rs) vs =
        let rest = decisions key rs (request r.0 r.1 vs).1 in
        if same r.0 key then (request r.0 r.1 vs).0 ∷ rest else rest
