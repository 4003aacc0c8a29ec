-- ===== src/Match/Sound.antt =====
-- What `match_entities` of nhpc_qa/entities/dictionary.py may return.
use nhpc_parliament_rag_syst.Prelude.{
  ℕ, zero, suc, append_assoc, ◌≤◌, ◌≡◌, refl, ap, ◌∙◌, subst, Bool, true, false, not, ◌&&◌, List,
  [], ◌∷◌, ◌++◌, any, All, All-map, drop, length, String, str_eq, if◌then◌else◌, Text, starts_with,
  ltb, leb, Bool-cases, inl, inr, ◌⊎◌, arith,
}
use nhpc_parliament_rag_syst.Match.{
  Named, Mention, Alias, pad, shares, scan, insert_alias, longest_first, min_bare, scan_all,
  insert_mention, by_place, has_seen, first_of_each, match_entities,
}

abbrev pub IsAliasOf : Text → Named → List Alias → Type 0
IsAliasOf t e [] = ⊥
IsAliasOf t e (a ∷ more) = (a ≡ (t, e)) ⊎ IsAliasOf t e more

-- A mention of an alias of the dictionary, of two characters or more, that stands in the text between
-- spaces.
pub record IsMention (padded : Text) (aliases : List Alias) (m : Mention) : Type 0 where
  pub known : IsAliasOf m.surface m.entity aliases
  pub long : min_bare ≤ length m.surface
  pub there : starts_with (pad m.surface) (drop m.place padded) ≡ true

-- No two of them share a character.
abbrev pub IsDisjoint : List Mention → Type 0
IsDisjoint [] = Unit
IsDisjoint (m ∷ ms) = All (λ n. shares m n ≡ false) ms × IsDisjoint ms

-- No two of them name one entity.
abbrev pub NamesOnce : List Mention → Type 0
NamesOnce [] = Unit
NamesOnce (m ∷ ms) =
    All (λ n. str_eq m.entity.entity_id n.entity.entity_id ≡ false) ms × NamesOnce ms

any-false→All :
    (p : Mention → Bool) (ms : List Mention) → any p ms ≡ false → All (λ n. p n ≡ false) ms
any-false→All p [] h = tt
any-false→All p (m ∷ ms) h = (ground (arith, h), any-false→All p ms (ground (arith, h)))

drop-suc : (i : ℕ) (t : Text) (c : ℕ) (rest : Text) → drop i t ≡ c ∷ rest → drop (suc i) t ≡ rest
drop-suc zero t c rest h = ap (drop 1) h
drop-suc (suc i) [] c rest h = cc
drop-suc (suc i) (d ∷ t) c rest h = drop-suc i t c rest h

module _ (padded : Text) (aliases : List Alias) where
  abbrev IsFound : List Mention → Type 0
  IsFound ms = All (IsMention padded aliases) ms × IsDisjoint ms

  take_mention :
      (b : Bool) (m : Mention) (found : List Mention)
      → (b ≡ true → IsMention padded aliases m)
      → IsFound found
      → IsFound (if b && not (any (shares m) found) then m ∷ found else found)
  take_mention false m found h ok = ok
  take_mention true m found h ok = elim (Bool-cases (any (shares m) found)) [
    | inl e ↦ rw e ok
    | inr e ↦ rw e ((h refl, ok.0), (any-false→All (shares m) found e, ok.1))
  ]

  scan-IsFound :
      (alias : Text) (e : Named) (i : ℕ) (rest : Text) (found : List Mention)
      → IsAliasOf alias e aliases
      → min_bare ≤ length alias
      → drop i padded ≡ rest
      → IsFound found
      → IsFound (scan alias e i rest found)
  unfolding scan
  scan-IsFound alias e i [] found known long at ok = ok
  scan-IsFound alias e i (c ∷ rest) found known long at ok =
      scan-IsFound alias e (suc i) rest _ known long (drop-suc i padded c rest at) (
        take_mention (starts_with (pad alias) (c ∷ rest))
          (record { place = i; surface = alias; entity = e }) found
          (λ h. record { known = known; long = long; there = ap (starts_with (pad alias)) at ∙ h })
          ok)

  -- Every alias that is scanned belongs to the dictionary.
  abbrev AreKnown : List Alias → Type 0
  AreKnown = All (λ a. IsAliasOf a.0 a.1 aliases)

  scan_all-IsFound :
      (more : List Alias) (found : List Mention)
      → AreKnown more
      → IsFound found
      → IsFound (scan_all padded more found)
  unfolding scan_all
  scan_all-IsFound [] found known ok = ok
  scan_all-IsFound ((alias, e) ∷ more) found known ok =
      elim (Bool-cases (ltb (length alias) min_bare)) [
        | inl s ↦ rw s (scan_all-IsFound more found known.1 ok)
        | inr s ↦ rw s (
            scan_all-IsFound more (scan alias e 0 padded found) known.1
              (scan-IsFound alias e 0 padded found known.0 (ground (arith, s)) refl ok))
      ]

  insert_alias-AreKnown :
      (a : Alias) (more : List Alias)
      → IsAliasOf a.0 a.1 aliases
      → AreKnown more
      → AreKnown (insert_alias a more)
  unfolding insert_alias
  insert_alias-AreKnown a [] h hs = (h, tt)
  insert_alias-AreKnown a (b ∷ bs) h hs = elim (Bool-cases (leb (length b.0) (length a.0))) [
    | inl s ↦ rw s (h, hs)
    | inr s ↦ rw s (hs.0, insert_alias-AreKnown a bs h hs.1)
  ]

  longest_first-AreKnown : (more : List Alias) → AreKnown more → AreKnown (longest_first more)
  unfolding longest_first
  longest_first-AreKnown [] h = tt
  longest_first-AreKnown (a ∷ more) h =
      insert_alias-AreKnown a (longest_first more) h.0 (longest_first-AreKnown more h.1)

module _ (P : Mention → Type 0) where
  All-insert_mention :
      (m : Mention) (ns : List Mention) → P m → All P ns → All P (insert_mention m ns)
  unfolding insert_mention
  All-insert_mention m [] h hs = (h, tt)
  All-insert_mention m (n ∷ ns) h hs = elim (Bool-cases (leb m.place n.place)) [
    | inl s ↦ rw s (h, hs)
    | inr s ↦ rw s (hs.0, All-insert_mention m ns h hs.1)
  ]

  All-by_place : (ms : List Mention) → All P ms → All P (by_place ms)
  unfolding by_place
  All-by_place [] h = tt
  All-by_place (m ∷ ms) h = All-insert_mention m (by_place ms) h.0 (All-by_place ms h.1)

  All-first_of_each :
      (seen : List String) (ms : List Mention) → All P ms → All P (first_of_each seen ms)
  unfolding first_of_each
  All-first_of_each seen [] h = tt
  All-first_of_each seen (m ∷ ms) h = elim (Bool-cases (has_seen m.entity.entity_id seen)) [
    | inl s ↦ rw s (All-first_of_each seen ms h.1)
    | inr s ↦ rw s (h.0, All-first_of_each (m.entity.entity_id ∷ seen) ms h.1)
  ]

shares_sym : (m n : Mention) → shares m n ≡ false → shares n m ≡ false
shares_sym m n h = ground (arith, h)

insert_mention-IsDisjoint :
    (m : Mention) (ns : List Mention)
    → All (λ n. shares m n ≡ false) ns
    → IsDisjoint ns
    → IsDisjoint (insert_mention m ns)
unfolding insert_mention
insert_mention-IsDisjoint m [] h hs = (tt, tt)
insert_mention-IsDisjoint m (n ∷ ns) h hs = elim (Bool-cases (leb m.place n.place)) [
  | inl s ↦ rw s (h, hs)
  | inr s ↦ rw s (
    All-insert_mention (λ x. shares n x ≡ false) m ns (shares_sym m n h.0) hs.0,
    insert_mention-IsDisjoint m ns h.1 hs.1,
  )
]

by_place-IsDisjoint : (ms : List Mention) → IsDisjoint ms → IsDisjoint (by_place ms)
unfolding by_place
by_place-IsDisjoint [] h = tt
by_place-IsDisjoint (m ∷ ms) h =
    insert_mention-IsDisjoint m (by_place ms) (All-by_place (λ n. shares m n ≡ false) ms h.0)
      (by_place-IsDisjoint ms h.1)

first_of_each-IsDisjoint :
    (seen : List String) (ms : List Mention) → IsDisjoint ms → IsDisjoint (first_of_each seen ms)
unfolding first_of_each
first_of_each-IsDisjoint seen [] h = tt
first_of_each-IsDisjoint seen (m ∷ ms) h = elim (Bool-cases (has_seen m.entity.entity_id seen)) [
  | inl s ↦ rw s (first_of_each-IsDisjoint seen ms h.1)
  | inr s ↦ rw s (
    All-first_of_each (λ n. shares m n ≡ false) (m.entity.entity_id ∷ seen) ms h.0,
    first_of_each-IsDisjoint (m.entity.entity_id ∷ seen) ms h.1,
  )
]

-- What comes out has not been seen.
first_of_each-unseen :
    (seen : List String) (ms : List Mention)
    → All (λ n. has_seen n.entity.entity_id seen ≡ false) (first_of_each seen ms)
unfolding first_of_each
first_of_each-unseen seen [] = tt
first_of_each-unseen seen (m ∷ ms) = elim (Bool-cases (has_seen m.entity.entity_id seen)) [
  | inl s ↦ rw s (first_of_each-unseen seen ms)
  | inr s ↦ rw s (
    s,
    All-map (λ n. has_seen n.entity.entity_id (m.entity.entity_id ∷ seen) ≡ false)
        (λ n. has_seen n.entity.entity_id seen ≡ false)
        (first_of_each (m.entity.entity_id ∷ seen) ms) (λ n h. ground (arith, h))
        (first_of_each-unseen (m.entity.entity_id ∷ seen) ms),
  )
]

first_of_each-NamesOnce :
    (seen : List String) (ms : List Mention) → NamesOnce (first_of_each seen ms)
unfolding first_of_each
first_of_each-NamesOnce seen [] = tt
first_of_each-NamesOnce seen (m ∷ ms) = elim (Bool-cases (has_seen m.entity.entity_id seen)) [
  | inl s ↦ rw s (first_of_each-NamesOnce seen ms)
  | inr s ↦ rw s (
    All-map (λ n. has_seen n.entity.entity_id (m.entity.entity_id ∷ seen) ≡ false)
        (λ n. str_eq m.entity.entity_id n.entity.entity_id ≡ false)
        (first_of_each (m.entity.entity_id ∷ seen) ms) (λ n h. ground (arith, h))
        (first_of_each-unseen (m.entity.entity_id ∷ seen) ms),
    first_of_each-NamesOnce (m.entity.entity_id ∷ seen) ms,
  )
]

all_known : (done more : List Alias) → All (λ a. IsAliasOf a.0 a.1 (done ++ more)) more
all_known done [] = tt
all_known done (a ∷ more) = (
  at_end done,
  subst (λ (l : List Alias). All (λ b. IsAliasOf b.0 b.1 l) more) (append_assoc done (a ∷ []) more)
      (all_known (done ++ a ∷ []) more),
)
  where
    at_end : (l : List Alias) → IsAliasOf a.0 a.1 (l ++ a ∷ more)
    at_end [] = inl refl
    at_end (b ∷ l) = inr (at_end l)

-- The entities that a text is said to name. Each comes with an alias of the dictionary, of two characters
-- or more, that stands in the text between spaces, with the entity of that alias; no character counts
-- for two of them, and no entity is named twice.
pub match_entities_sound :
    (norm : Text) (aliases : List Alias)
    → All (IsMention (pad norm) aliases) (match_entities norm aliases)
      × IsDisjoint (match_entities norm aliases)
      × NamesOnce (match_entities norm aliases)
unfolding match_entities
match_entities_sound norm aliases =
    let found = scan_all (pad norm) (longest_first aliases) [] in
    let ok =
      scan_all-IsFound (pad norm) aliases (longest_first aliases) []
        (longest_first-AreKnown (pad norm) aliases aliases (all_known [] aliases)) (tt, tt) in
    (
      All-first_of_each (IsMention (pad norm) aliases) [] (by_place found)
          (All-by_place (IsMention (pad norm) aliases) found ok.0),
      first_of_each-IsDisjoint [] (by_place found) (by_place-IsDisjoint found ok.1),
      first_of_each-NamesOnce [] (by_place found),
    )
