-- ===== src/Dedupe.antt =====
-- Merging the entities of the dictionary that name one thing: nhpc_qa/entities/dedupe.py. The words of
-- a name and the Unicode digits are parameters.
pub mod Links
pub mod Buckets
pub mod Words
pub mod Survivor
use nhpc_parliament_rag_syst.Prelude.{
  ℕ, Bool, true, false, not, ◌&&◌, ◌||◌, Option, none, some, List, [], ◌∷◌, ◌++◌, map, filter, any,
  all, drop, count, length, leb, ltb, ◌==◌, String, str_eq, if◌then◌else◌, Text, text_eq, codes,
  has, starts_with,
}

-- A row of `entities` with the number of its links, as `plan` reads it.
pub record Entity : Type 0 where
  pub entity_id : String
  pub canonical : Text
  pub entity_type : String
  pub links : ℕ

-- A row of `entity_aliases` or `sub_question_entities`: what refers to an entity, and the entity.
pub record Reference : Type 0 where
  pub from_key : String
  pub to_entity : String

pub record Dictionary : Type 0 where
  pub entities : List String
  pub aliases : List Reference
  pub sub_questions : List Reference

pub record Merge : Type 0 where
  pub survivor : Entity
  pub losers : List Entity

-- `_GENERIC`
abbrev pub generic_words : List String
generic_words =
    "project" ∷ "projects" ∷ "poject" ∷ "pojects" ∷ "hydroelectric" ∷ "hydro" ∷ "electric" ∷ "hydel"
    ∷ "hydropower" ∷ "he" ∷ "hep" ∷ "heps" ∷ "mpp" ∷ "psp" ∷ "power" ∷ "station" ∷ "stations"
    ∷ "plant" ∷ "plants" ∷ "scheme" ∷ "schemes" ∷ "stage" ∷ "limited" ∷ "ltd" ∷ "mw" ∷ []

abbrev pub is_generic : Text → Bool
is_generic t = any (λ w. text_eq (codes w) t) generic_words

-- What is not of this file: the words of a name, `normalise(canonical)` without brackets and split, and
-- the characters that `\d` matches.
pub record Names : Type 0 where
  pub words : Text → List Text
  pub is_decimal : ℕ → Bool

-- `^[\d,.]+$`
abbrev pub is_number : Names → Text → Bool
is_number names [] = false
is_number names (c ∷ t) = all (λ d. names.is_decimal d || ((d == b',') || (d == b'.'))) (c ∷ t)

-- `^(19|20)\d\d$`
abbrev pub is_year : Names → Text → Bool
is_year names t =
    (starts_with (codes "19") t || starts_with (codes "20") t)
    && ((length t == 4) && all names.is_decimal (drop 2 t))

abbrev pub keeps_word : Names → Text → Bool
keeps_word names t = not (is_generic t) && not (is_number names t && not (is_year names t))

unfoldable pub merge_key : Names → Text → List Text
merge_key names canonical = filter (keeps_word names) (names.words canonical)

-- Equality of frozensets.
abbrev pub has_word : List Text → Text → Bool
has_word ts t = any (λ u. text_eq u t) ts

abbrev pub same_words : List Text → List Text → Bool
same_words a b = all (has_word b) a && all (has_word a) b

abbrev pub share_bucket : Names → Entity → Entity → Bool
share_bucket names a b =
    str_eq a.entity_type b.entity_type
    && same_words (merge_key names a.canonical) (merge_key names b.canonical)

abbrev starts_bucket : Names → Entity → List Entity → Bool
starts_bucket names e [] = false
starts_bucket names e (m ∷ ms) = share_bucket names m e

unfoldable pub join_bucket : Names → Entity → List (List Entity) → List (List Entity)
join_bucket names e [] = (e ∷ []) ∷ []
join_bucket names e (b ∷ bs) =
    let rest = join_bucket names e bs in
    if starts_bucket names e b then (b ++ e ∷ []) ∷ bs else b ∷ rest

abbrev is_empty : List Text → Bool
is_empty [] = true
is_empty (t ∷ ts) = false

unfoldable pub fill_buckets : Names → List Entity → List (List Entity) → List (List Entity)
unfolding join_bucket
fill_buckets names [] bs = bs
fill_buckets names (e ∷ es) bs =
    fill_buckets names es
      (if is_empty (merge_key names e.canonical) then bs else join_bucket names e bs)

-- `key=lambda m: (-m["links"], -len(m["canonical"]))`
abbrev pub goes_first : Entity → Entity → Bool
goes_first a b =
    ltb b.links a.links || ((a.links == b.links) && leb (length b.canonical) (length a.canonical))

unfoldable pub insert_member : Entity → List Entity → List Entity
insert_member e [] = e ∷ []
insert_member e (m ∷ ms) =
    let rest = insert_member e ms in if goes_first e m then e ∷ m ∷ ms else m ∷ rest

unfoldable pub sort_members : List Entity → List Entity
unfolding insert_member
sort_members [] = []
sort_members (m ∷ ms) = insert_member m (sort_members ms)

abbrev pub merge_of : List Entity → List Merge
merge_of [] = []
merge_of (m ∷ []) = []
merge_of (m ∷ n ∷ ms) = record { survivor = m; losers = n ∷ ms } ∷ []

unfoldable pub merges_of : List (List Entity) → List Merge
unfolding sort_members
merges_of [] = []
merges_of (b ∷ bs) = merge_of (sort_members b) ++ merges_of bs

unfoldable pub plan : Names → List Entity → List Merge
unfolding fill_buckets merges_of
plan names entities = merges_of (fill_buckets names entities [])

-- The two statements on a table that refers to entities: an update that reads the table as it was, and
-- a delete.
abbrev pub owns : List Reference → String → String → Bool
owns rows key entity = any (λ r. str_eq r.from_key key && str_eq r.to_entity entity) rows

abbrev pub moved_row : List Reference → String → String → Reference → Reference
moved_row rows survivor loser r =
    if str_eq r.to_entity loser && not (owns rows r.from_key survivor)
    then record r { to_entity = survivor }
    else r

unfoldable pub repoint : String → String → List Reference → List Reference
repoint survivor loser rows =
    filter (λ r. not (str_eq r.to_entity loser)) (map (moved_row rows survivor loser) rows)

unfoldable pub merge_one : String → String → Dictionary → Dictionary
unfolding repoint
merge_one survivor loser d = record {
  entities = filter (λ e. not (str_eq e loser)) d.entities;
  aliases = repoint survivor loser d.aliases;
  sub_questions = repoint survivor loser d.sub_questions;
}

unfoldable pub merge_losers : String → List Entity → Dictionary → Dictionary
merge_losers survivor [] d = d
merge_losers survivor (l ∷ ls) d = merge_losers survivor ls (merge_one survivor l.entity_id d)

-- The dictionary after the merges and the number of merged rows.
unfoldable pub apply_merges : List Merge → Dictionary → Dictionary
unfolding merge_losers
apply_merges [] d = d
apply_merges (m ∷ ms) d = apply_merges ms (merge_losers m.survivor.entity_id m.losers d)
