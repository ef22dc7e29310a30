-- ===== src/ClientIp/Spoof.antt =====
-- What a client writes in front of the forwarding header does not matter.
use know_your_repo.Prelude.{
  ℕ, suc, ◌-◌, ◌≤◌, ◌<◌, ◌≡◌, refl, false, List, [], ◌∷◌, ◌++◌, Option, length, length-append,
  arith, ◌==◌, Bool-cases, inl, inr,
}
use know_your_repo.Text.{Text, is_empty, split, push_front}
use know_your_repo.ClientIp.{comma, entry, resolve_client_ip}

push_front-pos : (c : ℕ) (xs : List Text) → 0 < length (push_front c xs)
unfolding push_front
push_front-pos c [] = omega arith
push_front-pos c (x ∷ xs) = omega arith

split-ne-nil : (sep : ℕ) (s : Text) → 0 < length (split sep s)
unfolding split
split-ne-nil sep [] = omega arith
split-ne-nil sep (c ∷ s) = elim (Bool-cases (c == sep)) [
  | inl at ↦ rw at (omega arith)
  | inr other ↦ rw other (push_front-pos c (split sep s))
]

push_front-append :
    (c : ℕ) (xs ys : List Text) → 0 < length xs → push_front c (xs ++ ys) ≡ push_front c xs ++ ys
unfolding push_front
push_front-append c [] ys h = absurd (omega arith)
push_front-append c (x ∷ xs) ys h = refl

-- Splitting at a separator splits what stands before it and what stands behind it.
pub split-append : (sep : ℕ) (s t : Text) → split sep (s ++ sep ∷ t) ≡ split sep s ++ split sep t
unfolding split
split-append sep [] t = ground arith
split-append sep (c ∷ s) t = elim (Bool-cases (c == sep)) [
  | inl at ↦ rw (at, split-append sep s t)
  | inr other ↦
      rw (other, split-append sep s t)
        (push_front-append c (split sep s) (split sep t) (split-ne-nil sep s))
]

-- Counted from the end, an entry of the second part is not moved by the first.
entry-append :
    (xs ys : List Text) (k : ℕ)
    → 0 < k
    → k ≤ length ys
    → entry (xs ++ ys) (length (xs ++ ys) - k) ≡ entry ys (length ys - k)
entry-append [] ys k p h = refl
entry-append (x ∷ xs) ys k p h =
    let e : suc (length (xs ++ ys)) - k ≡ suc (length (xs ++ ys) - k) =
      omega (arith, length-append xs ys) in
    rw e (entry-append xs ys k p h)

is_empty-append : (s t : Text) (c : ℕ) → is_empty (s ++ c ∷ t) ≡ false
unfolding is_empty
is_empty-append [] t c = refl
is_empty-append (d ∷ s) t c = refl

module _ (parse_ip split_host_port : Text → Option Text) where
  -- With hops to count, and a header with at least as many entries: whatever a client puts in
  -- front of the header's value, the same address is resolved.
  pub resolve_client_ip-spoofed :
      (addr spoof value header : Text) (trusted_hops : ℕ)
      → is_empty value ≡ false
      → trusted_hops ≤ length (split comma value)
      → resolve_client_ip parse_ip split_host_port
          (record { remote_addr = addr; get_header = λ _. spoof ++ comma ∷ value })
          trusted_hops
          header
        ≡ resolve_client_ip parse_ip split_host_port
            (record { remote_addr = addr; get_header = λ _. value })
            trusted_hops
            header
  unfolding resolve_client_ip
  resolve_client_ip-spoofed addr spoof value header trusted_hops nonempty enough =
      let before = split comma spoof in
      let after = split comma value in
      rw (is_empty-append spoof value comma, nonempty, split-append comma spoof value)
        (elim (Bool-cases (trusted_hops == 0)) [
          | inl direct ↦ rw direct
          | inr behind ↦
              rw
                (
                  entry-append before after trusted_hops (ground arith) enough,
                  entry-append before after 1 (omega arith) (split-ne-nil comma value),
                )
                (ground (arith, length-append before after))
        ])
