-- ===== src/Purge/Grace.antt =====
-- What `nhpc purge` removes: exactly the rows that were soft-deleted long enough ago.
use nhpc_parliament_rag_syst.Prelude.{
  ◌+◌, ◌*◌, ◌<◌, ◌&&◌, ◌↔◌, ◌++◌, Option, none, ltb, lt→ltb, ltb→lt, all, is_space, ℕ, ◌≡◌, refl,
  ap, ◌∙◌, sym, Bool, true, false, not, some, List, [], ◌∷◌, arith, Text, text_eq, text_eq→eq,
  filter, any, All, All-map, Bool-cases, inl, inr, ◌⊎◌, ◌||◌, false≢true, Option-cases,
}
use nhpc_parliament_rag_syst.Corpus.{Diary, Corpus, purged, log_action, mem_key, visible}
use nhpc_parliament_rag_syst.Sync.{doc_keys}
use nhpc_parliament_rag_syst.Sync.Delete.{mem_key-filter, own_key}
use nhpc_parliament_rag_syst.Purge.Age.{value_from, parse_age_exact}
use nhpc_parliament_rag_syst.Purge.{
  is_digit, is_candidate, candidates, delete_keys, log_purged, delete_rows, is_confirmed,
  purge_rows, purge, parse_age,
}

diaries-log_purged : (ds : List Diary) (c : Corpus) → (log_purged ds c).diaries ≡ c.diaries
unfolding log_purged log_action
diaries-log_purged [] c = refl
diaries-log_purged (d ∷ ds) c =
    diaries-log_purged ds (log_action purged (some d.doc_key) (some d.n_sub_questions) c)

-- doc_key is the primary key: a row with the key of a row that passes a test passes it too.
abbrev pub KeysDecide : (Diary → Bool) → List Diary → Type 0
KeysDecide p ds = All (λ d. mem_key (doc_keys (filter p ds)) d.doc_key ≡ true → p d ≡ true) ds

delete_keys-exact :
    (p : Diary → Bool) (keys : List Text) (ds : List Diary)
    → All (λ d. mem_key keys d.doc_key ≡ true → p d ≡ true) ds
    → All (λ d. p d ≡ true → mem_key keys d.doc_key ≡ true) ds
    → delete_keys keys ds ≡ filter (λ d. not (p d)) ds
delete_keys-exact p keys [] h k = refl
delete_keys-exact p keys (d ∷ ds) h k =
    ground (arith, h.0, k.0, delete_keys-exact p keys ds h.1 k.1)

delete_candidates :
    (p : Diary → Bool) (ds : List Diary)
    → KeysDecide p ds
    → delete_keys (doc_keys (filter p ds)) ds ≡ filter (λ d. not (p d)) ds
delete_candidates p ds h =
    delete_keys-exact p (doc_keys (filter p ds)) ds h
      (All-map _ _ ds (λ d m e. mem_key-filter p ds d.doc_key ∙ m e) (own_key p ds))

visible-not_candidate :
    (now secs : ℕ) (ds : List Diary)
    → visible (filter (λ d. not (is_candidate now secs d)) ds) ≡ visible ds
visible-not_candidate now secs [] = refl
visible-not_candidate now secs (d ∷ ds) = ground (arith, visible-not_candidate now secs ds)

delete_nothing : (ds : List Diary) → delete_keys [] ds ≡ ds
delete_nothing [] = refl
delete_nothing (d ∷ ds) = ap (λ (l : List Diary). d ∷ l) (delete_nothing ds)

-- A row that was soft-deleted, more seconds ago than this.
abbrev pub HasExpired : ℕ → ℕ → Diary → Type 0
HasExpired now secs d = (d.active ≡ false) × ((t : ℕ) × (d.deleted_at ≡ some t) × (t + secs < now))

was_deleted :
    (now secs : ℕ) (active : Bool) (deleted_at : Option ℕ)
    → (not active && elim deleted_at [ none ↦ false | some t ↦ ltb (t + secs) now ]) ≡ true
    → (active ≡ false) × ((t : ℕ) × (deleted_at ≡ some t) × (t + secs < now))
was_deleted now secs true deleted_at h = absurd (false≢true h)
was_deleted now secs false none h = absurd (false≢true h)
was_deleted now secs false (some t) h = (refl, (t, refl, ltb→lt (t + secs) now h))

is_candidate-HasExpired :
    (now secs : ℕ) (d : Diary) → (is_candidate now secs d ≡ true) ↔ HasExpired now secs d
is_candidate-HasExpired now secs d = (
  was_deleted now secs d.active d.deleted_at,
  λ (off, (t, deleted, old)). rw (off, deleted) (lt→ltb (t + secs) now old),
)

-- A letter and the seconds of its unit: days, hours and minutes.
abbrev pub IsUnit : ℕ → ℕ → Type 0
IsUnit u k =
    ((u ≡ b'd') × (k ≡ 24 * 60 * 60)) ⊎ ((u ≡ b'h') × (k ≡ 60 * 60)) ⊎ ((u ≡ b'm') × (k ≡ 60))

parse_age-IsUnit :
    (c : ℕ) (ds : Text) (u k : ℕ)
    → all is_digit (c ∷ ds) ≡ true
    → IsUnit u k
    → parse_age (c ∷ ds ++ u ∷ []) ≡ some (value_from 0 (c ∷ ds) * k)
unfolding is_space
parse_age-IsUnit c ds u k digits (inl (eu, ek)) =
    rw (eu, ek) (parse_age_exact c ds b'd' digits refl refl)
parse_age-IsUnit c ds u k digits (inr (inl (eu, ek))) =
    rw (eu, ek) (parse_age_exact c ds b'h' digits refl refl)
parse_age-IsUnit c ds u k digits (inr (inr (eu, ek))) =
    rw (eu, ek) (parse_age_exact c ds b'm' digits refl refl)

purge_rows-exact :
    (now secs : ℕ) (yes' : Bool) (answer : Text) (c : Corpus)
    → is_confirmed yes' answer ≡ true
    → KeysDecide (is_candidate now secs) c.diaries
    → (rows : List Diary) → candidates now secs c.diaries ≡ rows
    → (purge_rows false yes' answer (λ x. x) rows c).0.diaries
      ≡ filter (λ d. not (is_candidate now secs d)) c.diaries
unfolding purge_rows delete_rows
purge_rows-exact now secs yes' answer c ok keyed [] e =
    sym (delete_nothing c.diaries)
    ∙ ap (λ (l : List Diary). delete_keys (doc_keys l) c.diaries) (sym e)
    ∙ delete_candidates (is_candidate now secs) c.diaries keyed
purge_rows-exact now secs yes' answer c ok keyed (r ∷ rs) e = rw ok (
    diaries-log_purged (r ∷ rs) (record c { diaries = delete_keys (doc_keys (r ∷ rs)) c.diaries })
    ∙ ap (λ (l : List Diary). delete_keys (doc_keys l) c.diaries) (sym e)
    ∙ delete_candidates (is_candidate now secs) c.diaries keyed)

-- A confirmed purge of an age, written as digits and one of the letters d, h and m, keeps exactly the
-- rows that are no candidates, and a candidate is a row that is inactive and was deleted longer ago than
-- that many days, hours or minutes; every row that retrieval shows stays. This where nothing else writes
-- between the selection and the deletion, and a doc_key names one row.
pub purge_exact :
    (now : ℕ) (c : ℕ) (ds : Text) (u k : ℕ) (yes' : Bool) (answer : Text) (table : Corpus)
    → all is_digit (c ∷ ds) ≡ true
    → IsUnit u k
    → is_confirmed yes' answer ≡ true
    → KeysDecide (is_candidate now (value_from 0 (c ∷ ds) * k)) table.diaries
    → let secs = value_from 0 (c ∷ ds) * k in
      let left = (purge now (c ∷ ds ++ u ∷ []) false yes' answer (λ x. x) table).0 in
      (left.diaries ≡ filter (λ d. not (is_candidate now secs d)) table.diaries)
      × ((d : Diary) → (is_candidate now secs d ≡ true) ↔ HasExpired now secs d)
      × (visible left.diaries ≡ visible table.diaries)
unfolding purge
purge_exact now c ds u k yes' answer table digits unit ok keyed =
    let secs = value_from 0 (c ∷ ds) * k in
    let age = parse_age-IsUnit c ds u k digits unit in
    let e =
      purge_rows-exact now secs yes' answer table ok keyed (candidates now secs table.diaries)
        refl in
    rw (age, purge)
      (
        e,
        is_candidate-HasExpired now secs,
        ap visible e ∙ visible-not_candidate now secs table.diaries,
      )

unconfirmed :
    (dry_run yes' : Bool) (answer : Text) (meanwhile : Corpus → Corpus) (rows : List Diary)
    (c : Corpus)
    → (dry_run ≡ true) ⊎ (is_confirmed yes' answer ≡ false)
    → ((purge_rows dry_run yes' answer meanwhile rows c).0 ≡ c)
      ⊎ ((purge_rows dry_run yes' answer meanwhile rows c).0 ≡ meanwhile c)
unfolding purge_rows
unconfirmed dry yes' answer meanwhile [] c h = inl refl
unconfirmed true yes' answer meanwhile (r ∷ rs) c h = inl refl
unconfirmed false yes' answer meanwhile (r ∷ rs) c (inl e) = absurd (false≢true e)
unconfirmed false yes' answer meanwhile (r ∷ rs) c (inr e) = inr (rw e)

-- A dry run, an age that does not parse, or an answer other than "purge" without --yes deletes no row:
-- the table is what the other processes leave.
purge_unconfirmed :
    (now : ℕ) (older_than : Text) (dry_run yes' : Bool) (answer : Text)
    (meanwhile : Corpus → Corpus) (c : Corpus)
    → (dry_run ≡ true) ⊎ (is_confirmed yes' answer ≡ false)
    → ((purge now older_than dry_run yes' answer meanwhile c).0 ≡ c)
      ⊎ ((purge now older_than dry_run yes' answer meanwhile c).0 ≡ meanwhile c)
unfolding purge
purge_unconfirmed now older_than dry_run yes' answer meanwhile c h =
    elim (Option-cases (parse_age older_than)) [
      | inl e ↦ inl (rw (e, purge))
      | inr (secs, e) ↦
          rw (e, purge)
            (unconfirmed dry_run yes' answer meanwhile (candidates now secs c.diaries) c h)
    ]

mem_key-any :
    (rows : List Diary) (k : Text) → mem_key (doc_keys rows) k ≡ any (λ x. text_eq x.doc_key k) rows
mem_key-any [] k = refl
mem_key-any (r ∷ rs) k = ap (λ (b : Bool). text_eq r.doc_key k || b) (mem_key-any rs k)

deleted_gone :
    (keys : List Text) (k : Text) (ds : List Diary)
    → mem_key keys k ≡ true
    → any (λ d. text_eq d.doc_key k) (delete_keys keys ds) ≡ false
deleted_gone keys k [] h = refl
deleted_gone keys k (d ∷ ds) h = elim (Bool-cases (text_eq d.doc_key k)) [
  | inl same ↦
      let m : mem_key keys d.doc_key ≡ true = ap (mem_key keys) (text_eq→eq d.doc_key k same) ∙ h in
      rw m (deleted_gone keys k ds h)
  | inr other ↦ ground (arith, deleted_gone keys k ds h)
]

rows_gone :
    (yes' : Bool) (answer : Text) (meanwhile : Corpus → Corpus) (c : Corpus) (d : Diary)
    → is_confirmed yes' answer ≡ true
    → (rows : List Diary) → any (λ x. text_eq x.doc_key d.doc_key) rows ≡ true
    → any
        (λ x. text_eq x.doc_key d.doc_key)
        (purge_rows false yes' answer meanwhile rows c).0.diaries
      ≡ false
unfolding purge_rows delete_rows
rows_gone yes' answer meanwhile c d ok [] old = absurd (false≢true old)
rows_gone yes' answer meanwhile c d ok (r ∷ rs) old = rw ok (
    ap (any (λ x. text_eq x.doc_key d.doc_key)) (
      diaries-log_purged (r ∷ rs)
        (record (meanwhile c) { diaries = delete_keys (doc_keys (r ∷ rs)) (meanwhile c).diaries }))
    ∙ deleted_gone (doc_keys (r ∷ rs)) d.doc_key (meanwhile c).diaries
        (mem_key-any (r ∷ rs) d.doc_key ∙ old))

-- A row that was old enough when the rows were selected is deleted by a confirmed purge whatever
-- happened to it since: also if it has been reactivated, and so is visible, while the operator was
-- asked.
pub purge_ignores_reactivation :
    (now secs : ℕ) (older_than : Text) (yes' : Bool) (answer : Text) (meanwhile : Corpus → Corpus)
    (c : Corpus) (d : Diary)
    → parse_age older_than ≡ some secs
    → is_confirmed yes' answer ≡ true
    → any (λ x. text_eq x.doc_key d.doc_key) (candidates now secs c.diaries) ≡ true
    → any
        (λ x. text_eq x.doc_key d.doc_key)
        (purge now older_than false yes' answer meanwhile c).0.diaries
      ≡ false
unfolding purge
purge_ignores_reactivation now secs older_than yes' answer meanwhile c d age ok old =
    rw (age, purge) (rows_gone yes' answer meanwhile c d ok (candidates now secs c.diaries) old)
