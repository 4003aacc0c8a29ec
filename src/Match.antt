-- ===== src/Match.antt =====
-- `match_entities` of nhpc_qa/entities/dictionary.py: the entities that a text names, on the text that
-- `normalise` makes, which is a parameter. The characters that are taken are those of the hits so far.
pub mod Sound
use nhpc_parliament_rag_syst.Prelude.{
  ℕ, suc, ◌+◌, Bool, true, false, not, ◌&&◌, Option, none, some, List, [], ◌∷◌, ◌++◌, any, length,
  String, str_eq, if◌then◌else◌, Text, starts_with, ltb, leb,
}

pub record Named : Type 0 where
  pub entity_id : String
  pub entity_type : String
  pub canonical : Text

-- A place in the padded text, the alias that stands there and its entity.
pub record Mention : Type 0 where
  pub place : ℕ
  pub surface : Text
  pub entity : Named

-- `f" {alias} "`
abbrev pub pad : Text → Text
pad t = 32 ∷ (t ++ 32 ∷ [])

-- Two mentions that share a character.
abbrev pub shares : Mention → Mention → Bool
shares a b = ltb a.place (b.place + length b.surface) && ltb b.place (a.place + length a.surface)

-- The mentions of one alias, from a place on: where it stands between spaces and no character is taken.
unfoldable pub scan : Text → Named → ℕ → Text → List Mention → List Mention
scan alias e i [] found = found
scan alias e i (c ∷ rest) found =
    let m : Mention = record { place = i; surface = alias; entity = e } in
    scan alias e (suc i) rest (
      if starts_with (pad alias) (c ∷ rest) && not (any (shares m) found) then m ∷ found else found)

-- `sorted(alias_map, key=len, reverse=True)`, stable.
abbrev pub Alias : Type 0
Alias = Text × Named

unfoldable pub insert_alias : Alias → List Alias → List Alias
insert_alias a [] = a ∷ []
insert_alias a (b ∷ bs) =
    let rest = insert_alias a bs in if leb (length b.0) (length a.0) then a ∷ b ∷ bs else b ∷ rest

unfoldable pub longest_first : List Alias → List Alias
unfolding insert_alias
longest_first [] = []
longest_first (a ∷ more) = insert_alias a (longest_first more)

abbrev pub min_bare : ℕ
min_bare = 2

unfoldable pub scan_all : Text → List Alias → List Mention → List Mention
unfolding scan
scan_all padded [] found = found
scan_all padded ((alias, e) ∷ more) found =
    scan_all padded more
      (if ltb (length alias) min_bare then found else scan alias e 0 padded found)

-- In order of appearance; no two mentions have one place.
unfoldable pub insert_mention : Mention → List Mention → List Mention
insert_mention m [] = m ∷ []
insert_mention m (n ∷ ns) =
    let rest = insert_mention m ns in if leb m.place n.place then m ∷ n ∷ ns else n ∷ rest

unfoldable pub by_place : List Mention → List Mention
unfolding insert_mention
by_place [] = []
by_place (m ∷ ms) = insert_mention m (by_place ms)

abbrev pub has_seen : String → List String → Bool
has_seen i seen = any (λ s. str_eq s i) seen

unfoldable pub first_of_each : List String → List Mention → List Mention
first_of_each seen [] = []
first_of_each seen (m ∷ ms) =
    if has_seen m.entity.entity_id seen
    then first_of_each seen ms
    else m ∷ first_of_each (m.entity.entity_id ∷ seen) ms

unfoldable pub match_entities : Text → List Alias → List Mention
unfolding scan_all longest_first by_place first_of_each
match_entities norm aliases =
    first_of_each [] (by_place (scan_all (pad norm) (longest_first aliases) []))
