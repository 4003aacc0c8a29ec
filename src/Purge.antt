-- ===== src/Purge.antt =====
-- nhpc_qa/watcher/purge.py, the one command that destroys rows: the age that the operator gives, the
-- rows that are old enough, the confirmation, and the deletion.
--
-- The rows are selected, shown, and confirmed by the operator before they are deleted by their keys in
-- a later transaction. What other processes commit in between is the argument `meanwhile`.
pub mod Age
pub mod Grace
use nhpc_parliament_rag_syst.Prelude.{
  ℕ, zero, suc, ◌+◌, ◌*◌, ◌-◌, Bool, true, false, not, ◌&&◌, ◌||◌, Option, none, some, List, [],
  ◌∷◌, ltb, leb, ◌==◌, if◌then◌else◌, Text, codes, text_eq, strip_by, is_space, lower, filter, map,
  any,
}
use nhpc_parliament_rag_syst.Corpus.{Diary, Corpus, purged, log_action, mem_key}

abbrev pub is_digit : ℕ → Bool
is_digit c = leb b'0' c && leb c b'9'

-- The seconds of a unit.
abbrev pub unit_seconds : ℕ → Option ℕ
unit_seconds u =
    if u == b'd'
    then some 86400
    else if u == b'h'
    then some 3600
    else if u == b'm'
    then some 60
    else none

abbrev pub is_blank : Text → Bool
is_blank [] = true
is_blank (c ∷ s) = is_space c && is_blank s

-- What follows the digits: `\s*([dhm])\s*`, to the end.
unfoldable pub parse_unit : Text → Option ℕ
parse_unit [] = none
parse_unit (c ∷ s) =
    let rest = parse_unit s in
    if is_space c then rest else if is_blank s then unit_seconds c else none

-- `(\d+)` and the unit, with ASCII digits; `seen` is whether a digit has been read.
unfoldable pub parse_digits : Bool → ℕ → Text → Option ℕ
unfolding parse_unit
parse_digits seen n [] = none
parse_digits seen n (c ∷ s) =
    let more = parse_digits true (n * 10 + (c - b'0')) s in
    if is_digit c
    then more
    else if seen
    then elim (parse_unit (c ∷ s)) [ none ↦ none | some u ↦ some (n * u) ]
    else none

-- `none` is the ValueError. Leading space is dropped, upper case is read as lower.
unfoldable pub skip_space : Text → Option ℕ
unfolding parse_digits
skip_space [] = none
skip_space (c ∷ s) =
    let rest = skip_space s in if is_space c then rest else parse_digits false 0 (c ∷ s)

unfoldable pub parse_age : Text → Option ℕ
unfolding skip_space
parse_age s = skip_space (lower s)

-- WHERE NOT active AND deleted_at IS NOT NULL AND deleted_at < now() - secs
abbrev pub is_candidate : ℕ → ℕ → Diary → Bool
is_candidate now secs d =
    not d.active && elim d.deleted_at [ none ↦ false | some t ↦ ltb (t + secs) now ]

abbrev pub candidates : ℕ → ℕ → List Diary → List Diary
candidates now secs = filter (is_candidate now secs)

-- DELETE FROM diaries WHERE doc_key = ANY(keys); the cascade takes what hangs on a row.
abbrev pub delete_keys : List Text → List Diary → List Diary
delete_keys keys = filter (λ d. not (mem_key keys d.doc_key))

unfoldable pub log_purged : List Diary → Corpus → Corpus
unfolding log_action
log_purged [] c = c
log_purged (d ∷ ds) c =
    log_purged ds (log_action purged (some d.doc_key) (some d.n_sub_questions) c)

pub data PurgeResult : Type 0 where
  bad_age nothing_eligible dry_run_only aborted : PurgeResult
  removed : List Text → PurgeResult

unfoldable pub delete_rows : List Diary → Corpus → Corpus × PurgeResult
unfolding log_purged
delete_rows rows c =
    let keys = map (λ d. d.doc_key) rows in
    (log_purged rows (record c { diaries = delete_keys keys c.diaries }), removed keys)

-- `--yes`, or the answer 'purge' after stripping.
unfoldable pub is_confirmed : Bool → Text → Bool
is_confirmed yes' answer = yes' || text_eq (strip_by is_space answer) (codes "purge")

-- The rows were selected from a table that `meanwhile` then changes.
unfoldable pub purge_rows :
    Bool → Bool → Text → (Corpus → Corpus) → List Diary → Corpus → Corpus × PurgeResult
unfolding delete_rows is_confirmed
purge_rows dry_run yes' answer meanwhile [] c = (c, nothing_eligible)
purge_rows dry_run yes' answer meanwhile (r ∷ rs) c =
    if dry_run
    then (c, dry_run_only)
    else if is_confirmed yes' answer
    then delete_rows (r ∷ rs) (meanwhile c)
    else (meanwhile c, aborted)

-- `main` once the configuration is read: `older_than` is the option's text, or the configured days.
unfoldable pub purge :
    ℕ → Text → Bool → Bool → Text → (Corpus → Corpus) → Corpus → Corpus × PurgeResult
unfolding parse_age purge_rows
purge now older_than dry_run yes' answer meanwhile c = elim (parse_age older_than) [
  | none ↦ (c, bad_age)
  | some secs ↦ purge_rows dry_run yes' answer meanwhile (candidates now secs c.diaries) c
]
