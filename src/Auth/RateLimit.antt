-- ===== src/Auth/RateLimit.antt =====
-- The per-IP sliding window of nhpc_qa/api/security/deps.py: `client_ip`, `check_ip_rate_limit`,
-- `record_ip_attempt` and `clear_ip_attempts`, on the attempt times of one address, oldest first.
use native.Mathlib.Nat.{mul-add, mul-one, zero-add}
use nhpc_parliament_rag_syst.Prelude.{
  ◌<◌, ◌*◌, ◌&&◌, ◌⊎◌, subst, append-nil, append_assoc, ℕ, ◌+◌, ◌≤◌, ◌≡◌, refl, ap, Bool, true,
  false, List, [], ◌∷◌, ◌++◌, arith, ltb, leb, if◌then◌else◌, length, count, All, Bool-cases, inl,
  inr, All-map, All-append, length-append, Option, none, some, Text, codes, strip, split,
}

abbrev first_part : List Text → Text
first_part [] = []
first_part (t ∷ ts) = t

-- The address of a request, from the header x-forwarded-for and the peer's host.
unfoldable pub client_ip : Option Text → Option Text → Text
client_ip (some (c ∷ forwarded)) host = strip (first_part (split 44 (c ∷ forwarded)))
client_ip (some []) none = codes "unknown"
client_ip (some []) (some host) = host
client_ip none none = codes "unknown"
client_ip none (some host) = host

-- `while hits and now - hits[0] > window: hits.popleft()`
unfoldable pub drop_old : ℕ → ℕ → List ℕ → List ℕ
drop_old window now [] = []
drop_old window now (t ∷ ts) =
    let rest = drop_old window now ts in if ltb (t + window) now then rest else t ∷ ts

-- The hits that are kept, and whether the attempt is allowed; `false` is the 429.
unfoldable pub check_ip_rate_limit : ℕ → ℕ → ℕ → List ℕ → List ℕ × Bool
unfolding drop_old
check_ip_rate_limit window max_attempts now hits =
    let kept = drop_old window now hits in (kept, ltb (length kept) max_attempts)

unfoldable pub record_ip_attempt : ℕ → List ℕ → List ℕ
record_ip_attempt now hits = hits ++ now ∷ []

-- The address is forgotten.
unfoldable pub clear_ip_attempts : List ℕ → List ℕ
clear_ip_attempts hits = []

-- One attempt at a time: it is checked, and recorded if it was allowed.
unfoldable pub attempt : ℕ → ℕ → List ℕ → ℕ → List ℕ × Bool
unfolding check_ip_rate_limit record_ip_attempt
attempt window max_attempts hits now =
    let (kept, allowed) = check_ip_rate_limit window max_attempts now hits in
    if allowed then (record_ip_attempt now kept, true) else (kept, false)

abbrev pub is_recent : ℕ → ℕ → ℕ → Bool
is_recent window now t = leb now (t + window)

abbrev pub IsAscending : List ℕ → Type 0
IsAscending [] = Unit
IsAscending (t ∷ ts) = All (λ u. t ≤ u) ts × IsAscending ts

All-recent :
    (window now : ℕ) (ts : List ℕ)
    → All (λ u. leb now (u + window) ≡ true) ts
    → count (is_recent window now) ts ≡ length ts
All-recent window now [] h = refl
All-recent window now (t ∷ ts) h = ground (arith, h.0, All-recent window now ts h.1)

drop_old-length :
    (window now : ℕ) (ts : List ℕ)
    → IsAscending ts
    → length (drop_old window now ts) ≡ count (is_recent window now) ts
unfolding drop_old
drop_old-length window now [] h = refl
drop_old-length window now (t ∷ ts) h = elim (Bool-cases (ltb (t + window) now)) [
  | inl old ↦ ground (arith, drop_old-length window now ts h.1)
  | inr recent ↦
      let later : All (λ u. leb now (u + window) ≡ true) ts =
        All-map (λ u. t ≤ u) (λ u. leb now (u + window) ≡ true) ts (λ u l. ground arith) h.0 in
      ground (arith, All-recent window now ts later)
]

-- An attempt is allowed exactly when fewer than the limit were recorded within the window: dropping
-- from the old end loses none that still counts.
check_ip_rate_limit_exact :
    (window max_attempts now : ℕ) (hits : List ℕ)
    → IsAscending hits
    → (check_ip_rate_limit window max_attempts now hits).1
      ≡ ltb (count (is_recent window now) hits) max_attempts
unfolding check_ip_rate_limit
check_ip_rate_limit_exact window m now hits h =
    ap (λ (n : ℕ). ltb n m) (drop_old-length window now hits h)

-- A login attempt as the route handles it: what the limiter lets through is recorded, and a login that
-- then succeeds forgets the address.
unfoldable pub login_attempt : ℕ → ℕ → List ℕ → ℕ → Bool → List ℕ × Bool
unfolding attempt clear_ip_attempts
login_attempt window max_attempts hits now succeeds =
    let (hits', allowed) = attempt window max_attempts hits now in
    if allowed && succeeds then (clear_ip_attempts hits', true) else (hits', allowed)

-- Attempts of one address, each with its time and whether the password is right, and how many were let
-- through.
unfoldable pub run : ℕ → ℕ → List ℕ → List (ℕ × Bool) → ℕ
unfolding login_attempt
run window m hits [] = 0
run window m hits ((t, succeeds) ∷ es) =
    let (hits', allowed) = login_attempt window m hits t succeeds in
    (if allowed then 1 else 0) + run window m hits' es

kept_recent :
    (window now : ℕ) (ts : List ℕ) → All (λ u. now ≤ u + window) ts → drop_old window now ts ≡ ts
unfolding drop_old
kept_recent window now [] h = refl
kept_recent window now (t ∷ ts) h = rw (recent window now t h.0) refl
  where
    recent : (window now t : ℕ) → now ≤ t + window → ltb (t + window) now ≡ false
    recent window now t l = ground arith

-- Dropping from the old end keeps every recent attempt.
drop_old-append :
    (window now : ℕ) (old new : List ℕ)
    → All (λ u. now ≤ u + window) new
    → (old' : List ℕ) × (drop_old window now (old ++ new) ≡ old' ++ new)
unfolding drop_old
drop_old-append window now [] new h = ([], kept_recent window now new h)
drop_old-append window now (t ∷ old) new h = elim (Bool-cases (ltb (t + window) now)) [
  | inl gone ↦ rw gone (drop_old-append window now old new h)
  | inr stays ↦ rw stays (t ∷ old, refl)
]

-- What an attempt leaves of a history whose last part is recent.
login_attempt-recent :
    (window m now : ℕ) (succeeds : Bool) (old new : List ℕ)
    → All (λ u. now ≤ u + window) new
    → (old' : List ℕ) × (login_attempt window m (old ++ new) now succeeds ≡ (
        if ltb (length (old' ++ new)) m
        then (if succeeds then [] else (old' ++ new) ++ now ∷ [], true)
        else (old' ++ new, false)))
unfolding login_attempt attempt check_ip_rate_limit record_ip_attempt clear_ip_attempts
login_attempt-recent window m now succeeds old new h =
    let (old', e) = drop_old-append window now old new h in
    (old', rw e (decided (ltb (length (old' ++ new)) m) succeeds (old' ++ new)))
  where
    decided :
        (b succeeds : Bool) (kept : List ℕ)
        → (let (hits', allowed) =
              if◌then◌else◌ {A = List ℕ × Bool} b (kept ++ now ∷ [], true) (kept, false) in
            if◌then◌else◌ {A = List ℕ × Bool} (allowed && succeeds) ([], true) (hits', allowed))
          ≡ (if b then (if succeeds then [] else kept ++ now ∷ [], true) else (kept, false))
    decided true true kept = refl
    decided true false kept = refl
    decided false succeeds kept = refl

abbrev pub InWindow : ℕ → ℕ → ℕ → Type 0
InWindow window start u = (start ≤ u) × (u ≤ start + window)

abbrev pub successes : List (ℕ × Bool) → ℕ
successes = count (λ (e : ℕ × Bool). e.1)

-- The bound for the attempts that remain, whatever the history before the recent part.
IsBounded : ℕ → ℕ → ℕ → List (ℕ × Bool) → Type 0
IsBounded window m start es =
    (old new : List ℕ)
    → All (InWindow window start) new
    → length new ≤ m
    → length new + run window m (old ++ new) es ≤ m + m * successes es

cleared : (m k n r : ℕ) → n < m → 0 + r ≤ m + m * k → n + (1 + r) ≤ m + m * (1 + k)
cleared m k n r lt le = omega (arith, lt, le, mul-add m 1 k, mul-one m)

bound_step :
    (window m start t : ℕ) (es : List (ℕ × Bool)) (old new : List ℕ) (s : Bool)
    → InWindow window start t
    → All (InWindow window start) new
    → length new ≤ m
    → IsBounded window m start es
    → (ltb (length (old ++ new)) m ≡ true) ⊎ (ltb (length (old ++ new)) m ≡ false)
    → let out =
        if◌then◌else◌ {A = List ℕ × Bool}
          (ltb (length (old ++ new)) m)
          (if s then [] else (old ++ new) ++ t ∷ [], true)
          (old ++ new, false) in
      length new + ((if out.1 then 1 else 0) + run window m out.0 es)
      ≤ m + m * successes ((t, s) ∷ es)
unfolding IsBounded run
bound_step window m start t es old new true b h l ih (inl free) = rw free (
    cleared m (successes es) (length new) (run window m [] es)
      (ground (arith, length-append old new)) (ih [] [] tt (omega arith)))
bound_step window m start t es old new false b h l ih (inl free) =
    let added = All-append (InWindow window start) new (t ∷ []) h (b, tt) in
    let room : length new < m = ground (arith, length-append old new) in
    let le = ih old (new ++ t ∷ []) added (omega (arith, room, length-append new (t ∷ []))) in
    rw (free, append_assoc old new (t ∷ []))
      (omega
        (arith, length-append new (t ∷ []), le, ap (λ (n : ℕ). m * n) (zero-add (successes es))))
bound_step window m start t es old new s b h l ih (inr full) =
    rw full (omega (arith, ih old new h l, mul-add m (if s then 1 else 0) (successes es)))

run_bound :
    (window m start : ℕ) (es : List (ℕ × Bool))
    → All (λ e. InWindow window start e.0) es
    → IsBounded window m start es
unfolding run IsBounded
run_bound window m start [] hs old new h l = omega arith
run_bound window m start ((t, succeeds) ∷ es) hs old new h l =
    let recent : All (λ u. t ≤ u + window) new =
      All-map (InWindow window start) (λ u. t ≤ u + window) new (λ u b. omega arith) h in
    let (old', e) = login_attempt-recent window m t succeeds old new recent in
    rw e (
      bound_step window m start t es old' new succeeds hs.0 h l (run_bound window m start es hs.1)
        (Bool-cases (ltb (length (old' ++ new)) m)))

-- Of the attempts that one address makes within one window, whatever it did before and whatever order
-- their times come in, at most the limit is let through, and as many again for each attempt with the
-- right password, since a login that succeeds forgets the address: without such a login it is the limit.
pub rate_limit_bounds :
    (window max_attempts start : ℕ) (hits : List ℕ) (es : List (ℕ × Bool))
    → All (λ e. InWindow window start e.0) es
    → run window max_attempts hits es ≤ max_attempts + max_attempts * successes es
unfolding IsBounded
rate_limit_bounds window m start hits es h =
    subst (λ (l : List ℕ). run window m l es ≤ m + m * successes es) (append-nil hits)
      (omega (arith, run_bound window m start es h hits [] tt (omega arith)))
