-- ===== src/RateLimit/Separate.antt =====
-- That a key's requests are answered as if there were no others.
use mathlib.Core.Path.{ap₂}
use know_your_repo.Prelude.{
  ℕ, ◌≡◌, refl, sym, ap, ◌∙◌, inl, inr, Bool, false, List, [], ◌∷◌, some, select, arith, Bool-cases,
}
use know_your_repo.Text.{Text, same, same_iff, same_refl}
use know_your_repo.RateLimit.{
  Visitor, Visitors, find_visitor, put_visitor, get_limiter, limiter_or_new, request, decisions,
}

module _ {L : Type 0} where
  find-put :
      (key : Text) (v : Visitor L) (vs : Visitors L)
      → find_visitor key (put_visitor key v vs) ≡ some v
  unfolding find_visitor put_visitor
  find-put key v [] = rw (same_refl key)
  find-put key v (w ∷ vs) = elim (Bool-cases (same w.0 key)) [
    | inl here ↦ rw (here, here)
    | inr there ↦ rw (there, there) (find-put key v vs)
  ]

  find-put_other :
      (key other : Text) (v : Visitor L) (vs : Visitors L)
      → same other key ≡ false
      → find_visitor key (put_visitor other v vs) ≡ find_visitor key vs
  unfolding find_visitor put_visitor
  find-put_other key other v [] h = rw h
  find-put_other key other v (w ∷ vs) h =
      ground (arith, find-put_other key other v vs, same_iff w.0 other)

  module _ (new_limiter : L) (allow : L → ℕ → Bool × L) where
    find-request_other :
        (key other : Text) (now : ℕ) (vs : Visitors L)
        → same other key ≡ false
        → find_visitor key (request new_limiter allow other now vs).1 ≡ find_visitor key vs
    unfolding request
    find-request_other key other now vs h =
        find-put_other key other
          (record {
            limiter = (allow (get_limiter new_limiter allow other vs) now).1;
            last_seen = now;
          })
          vs h

    -- Where the bucket of the key is the same, so are the answer and the bucket after it.
    request-agrees :
        (key : Text) (now : ℕ) (vs ws : Visitors L)
        → find_visitor key vs ≡ find_visitor key ws
        → ((request new_limiter allow key now vs).0 ≡ (request new_limiter allow key now ws).0)
          × (find_visitor key (request new_limiter allow key now vs).1
              ≡ find_visitor key (request new_limiter allow key now ws).1)
    unfolding request get_limiter
    request-agrees key now vs ws e =
        let same_limiter : get_limiter new_limiter allow key vs
            ≡ get_limiter new_limiter allow key ws =
          ap (limiter_or_new new_limiter allow) e in
        (
          ap (λ l. (allow l now).0) same_limiter,
          find-put key
                (record {
                  limiter = (allow (get_limiter new_limiter allow key vs) now).1;
                  last_seen = now;
                })
                vs
              ∙ ap (λ l. some (record { limiter = (allow l now).1; last_seen = now })) same_limiter
              ∙ sym (
                  find-put key
                    (record {
                      limiter = (allow (get_limiter new_limiter allow key ws) now).1;
                      last_seen = now;
                    })
                    ws),
        )

    decisions-agree :
        (key : Text) (rs : List (Text × ℕ)) (vs ws : Visitors L)
        → find_visitor key vs ≡ find_visitor key ws
        → decisions new_limiter allow key rs vs
          ≡ decisions new_limiter allow key (select (λ r. same r.0 key) rs) ws
    unfolding decisions
    decisions-agree key [] vs ws e = refl
    decisions-agree key (r ∷ rs) vs ws e = elim (Bool-cases (same r.0 key)) [
      | inl own ↦
          let k = (same_iff r.0 key).0 own in
          let agree =
            request-agrees r.0 r.1 vs ws
              (ap (λ j. find_visitor j vs) k ∙ e ∙ sym (ap (λ j. find_visitor j ws) k)) in
          let vs' = (request new_limiter allow r.0 r.1 vs).1 in
          let ws' = (request new_limiter allow r.0 r.1 ws).1 in
          rw (own, own)
            (ap₂ ◌∷◌ agree.0 (
              decisions-agree key rs (request new_limiter allow r.0 r.1 vs).1
                (request new_limiter allow r.0 r.1 ws).1
                (ap (λ j. find_visitor j vs') (sym k) ∙ agree.1 ∙ ap (λ j. find_visitor j ws') k)))
      | inr away ↦ rw away (
          decisions-agree key rs (request new_limiter allow r.0 r.1 vs).1 ws
            (find-request_other key r.0 r.1 vs away ∙ e))
    ]

    -- Whatever the buckets are and do, between two rounds of the cleanup the requests of a key are
    -- answered, among those of all keys, as they are without the others.
    pub decisions-select :
        (key : Text) (rs : List (Text × ℕ)) (vs : Visitors L)
        → decisions new_limiter allow key rs vs
          ≡ decisions new_limiter allow key (select (λ r. same r.0 key) rs) vs
    decisions-select key rs vs = decisions-agree key rs vs vs refl
