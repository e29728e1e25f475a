-- ===== src/Web/Limiter.antt =====
-- `InMemoryRateLimiter` of web/backend/security.py: one bucket of a key, the times of the
-- accepted requests, the oldest first. Times and windows are whole numbers of one unit.
use agens_web.Prelude.{
  ◌≡◌, refl, ap, ℕ, ◌+◌, ◌≤◌, Bool, true, false, List, [], ◌∷◌, ◌++◌, if◌then◌else◌, leb, ltb,
  length, keep_if, All, All-append, All-map, arith,
}

-- `while bucket and bucket[0] <= now - window_seconds: bucket.popleft()`
abbrev pub pop_old : ℕ → ℕ → List ℕ → List ℕ
pop_old now window_seconds [] = []
pop_old now window_seconds (b ∷ bs) =
    let rest = pop_old now window_seconds bs in
    if leb (b + window_seconds) now then rest else b ∷ bs

-- `false` is the refusal with status 429.
abbrev pub admitted : Bool → ℕ → List ℕ → Bool × List ℕ
admitted true now bucket = (false, bucket)
admitted false now bucket = (true, bucket ++ now ∷ [])

abbrev pub admit : ℕ → ℕ → List ℕ → Bool × List ℕ
admit now limit bucket = admitted (leb limit (length bucket)) now bucket

unfoldable pub check : ℕ → ℕ → ℕ → List ℕ → Bool × List ℕ
check now limit window_seconds bucket = admit now limit (pop_old now window_seconds bucket)

-- The times are in order, none is after `now`, and they are no more than `limit`.
abbrev pub IsSorted : List ℕ → Type 0
IsSorted [] = Unit
IsSorted (b ∷ bs) = All (λ c. b ≤ c) bs × IsSorted bs

abbrev pub IsBucket : ℕ → ℕ → List ℕ → Type 0
IsBucket limit now bucket = IsSorted bucket × All (λ b. b ≤ now) bucket × (length bucket ≤ limit)

keep_if_young :
    (now window : ℕ) (b : ℕ) (bs : List ℕ)
    → All (λ c. b ≤ c) bs
    → ltb now (b + window) ≡ true
    → keep_if (λ c. ltb now (c + window)) bs ≡ bs
keep_if_young now window b [] h e = refl
keep_if_young now window b (c ∷ bs) h e =
    let rest = keep_if_young now window b bs h.1 e in let le = h.0 in ground arith

pop_old-keep_if :
    (now window : ℕ) (bucket : List ℕ)
    → IsSorted bucket
    → pop_old now window bucket ≡ keep_if (λ b. ltb now (b + window)) bucket
pop_old-keep_if now window [] h = refl
pop_old-keep_if now window (b ∷ bs) h =
    let rest = pop_old-keep_if now window bs h.1 in
    let all = keep_if_young now window b bs h.0 in ground arith

-- On times in order, the queue decides as a sliding window does: it counts exactly the accepted
-- requests younger than the window.
pub check_window :
    (now limit window : ℕ) (bucket : List ℕ)
    → IsSorted bucket
    → check now limit window bucket ≡ admit now limit (keep_if (λ b. ltb now (b + window)) bucket)
unfolding check
check_window now limit window bucket h = ap (admit now limit) (pop_old-keep_if now window bucket h)

either-IsBucket :
    (limit now : ℕ) (xs ys : List ℕ) (first : Bool)
    → IsBucket limit now xs
    → IsBucket limit now ys
    → IsBucket limit now (if first then xs else ys)
either-IsBucket limit now xs ys true hx hy = hx
either-IsBucket limit now xs ys false hx hy = hy

pop_old-IsBucket :
    (now limit window : ℕ) (bucket : List ℕ)
    → IsBucket limit now bucket
    → IsBucket limit now (pop_old now window bucket)
pop_old-IsBucket now limit window [] h = h
pop_old-IsBucket now limit window (b ∷ bs) h =
    let rest = pop_old-IsBucket now limit window bs (h.0.1, h.1.1, omega arith) in
    either-IsBucket limit now (pop_old now window bs) (b ∷ bs) (leb (b + window) now) rest h

append-IsSorted :
    (now : ℕ) (bucket : List ℕ)
    → IsSorted bucket
    → All (λ b. b ≤ now) bucket
    → IsSorted (bucket ++ now ∷ [])
append-IsSorted now [] s a = (tt, tt)
append-IsSorted now (b ∷ bs) s a =
    (All-append (λ c. b ≤ c) bs (now ∷ []) s.0 (a.0, tt), append-IsSorted now bs s.1 a.1)

length-append : (now : ℕ) (bucket : List ℕ) → length (bucket ++ now ∷ []) ≡ length bucket + 1
length-append now [] = omega arith
length-append now (b ∷ bs) = let rest = length-append now bs in ground arith

admit-IsBucket :
    (now limit : ℕ) (bucket : List ℕ) (full : Bool)
    → leb limit (length bucket) ≡ full
    → IsBucket limit now bucket
    → IsBucket limit now (admitted full now bucket).1
admit-IsBucket now limit bucket true e h = h
admit-IsBucket now limit bucket false e h =
    let n = length-append now bucket in
    (
      append-IsSorted now bucket h.0 h.1,
      All-append (λ b. b ≤ now) bucket (now ∷ []) h.1 (omega arith, tt),
      ground arith,
    )

later :
    (limit now now' : ℕ) (bucket : List ℕ)
    → now ≤ now'
    → IsBucket limit now bucket
    → IsBucket limit now' bucket
later limit now now' bucket l h = (h.0, All-map (λ b p. omega arith) bucket h.1, h.2)

-- A request at a time that is not before the last one leaves the bucket in order, with no more
-- than `limit` times in it.
pub check-IsBucket :
    (now now' limit window : ℕ) (bucket : List ℕ)
    → now ≤ now'
    → IsBucket limit now bucket
    → IsBucket limit now' (check now' limit window bucket).1
unfolding check
check-IsBucket now now' limit window bucket l h =
    admit-IsBucket now' limit (pop_old now' window bucket) _ refl
      (pop_old-IsBucket now' limit window bucket (later limit now now' bucket l h))
