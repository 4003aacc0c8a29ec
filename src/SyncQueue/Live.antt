-- ===== src/SyncQueue/Live.antt =====
-- The unique index of sync_queue: at most one live row for a path, as a count and as the test that
-- the database makes.
use nhpc_parliament_rag_syst.Prelude.{
  ℕ, ◌≤◌, ◌<◌, String, ◌≡◌, refl, ap, true, ◌&&◌, not, Bool, List, [], ◌∷◌, arith, if◌then◌else◌,
  str_eq, eq_iff, eq_refl, any, count, count-map, count_mono, count→any, not_any→count, All,
  Bool-cases, inl, inr,
}
use nhpc_parliament_rag_syst.SyncQueue.{
  Job, Queue, empty, holds_path, has_id, update_where, index_holds,
}

abbrev pub live_count : String → List Job → ℕ
live_count path = count (holds_path path)

-- What holds of the table between two statements.
pub record IsValid (q : Queue) : Type 0 where
  pub one_live : (path : String) → live_count path q.rows ≤ 1
  pub ids_unique : (i : ℕ) → count (has_id i) q.rows ≤ 1
  pub ids_below : All (λ j. j.id < q.next_id) q.rows

pub empty-IsValid : IsValid empty
empty-IsValid = record {
  one_live = λ p. omega arith;
  ids_unique = λ i. omega arith;
  ids_below = tt;
}

-- An update that makes no row live, and moves no row to another path, keeps the index.
pub live_count-update_where :
    (c : Job → Bool) (f : Job → Job) (path : String) (rows : List Job)
    → All (λ j. holds_path path (if c j then f j else j) ≡ true → holds_path path j ≡ true) rows
    → live_count path (update_where c f rows) ≤ live_count path rows
live_count-update_where c f path rows h = omega (
  arith,
  count-map (holds_path path) (λ j. if c j then f j else j) rows,
  count_mono (λ j. holds_path path (if c j then f j else j)) (holds_path path) rows h,
)

pub index_holds→one_live :
    (rows : List Job) → index_holds rows ≡ true → (path : String) → live_count path rows ≤ 1
unfolding index_holds
index_holds→one_live [] h path = omega arith
index_holds→one_live (j ∷ js) h path = elim (Bool-cases (str_eq j.source_path path)) [
  | inl same ↦ ground (
    arith,
    not_any→count (holds_path j.source_path) js,
    index_holds→one_live js (ground arith) path,
    ap (λ (p : String). count (holds_path p) js) ((eq_iff j.source_path path).0 same),
  )
  | inr other ↦ ground (arith, index_holds→one_live js (ground arith) path)
]

pub one_live→index_holds :
    (rows : List Job) → ((path : String) → live_count path rows ≤ 1) → index_holds rows ≡ true
unfolding index_holds
one_live→index_holds [] h = refl
one_live→index_holds (j ∷ js) h = ground (
  arith,
  h j.source_path,
  eq_refl j.source_path,
  count→any (holds_path j.source_path) js,
  one_live→index_holds js (λ p. ground (arith, h p)),
)

-- Where the rows that another list names by id are all among those that pass a test, and ids are
-- unique, a row that is named passes the test.
pub named_pass :
    (p : Job → Bool) (named rows : List Job)
    → ((i : ℕ) → any (has_id i) named ≡ true → count (λ j. has_id i j && not (p j)) rows ≡ 0)
    → All (λ j. any (has_id j.id) named ≡ true → p j ≡ true) rows
named_pass p named [] h = tt
named_pass p named (j ∷ js) h =
    (λ e. ground (arith, h j.id e), named_pass p named js (λ i e. ground (arith, h i e)))

count-update_where-has_id :
    (c : Job → Bool) (f : Job → Job) (i : ℕ) (rows : List Job)
    → ((j : Job) → (f j).id ≡ j.id)
    → count (has_id i) (update_where c f rows) ≡ count (has_id i) rows
count-update_where-has_id c f i [] h = refl
count-update_where-has_id c f i (j ∷ js) h =
    ground (arith, h j, count-update_where-has_id c f i js h)

ids_below-update_where :
    (c : Job → Bool) (f : Job → Job) (n : ℕ) (rows : List Job)
    → ((j : Job) → (f j).id ≡ j.id)
    → All (λ j. j.id < n) rows
    → All (λ j. j.id < n) (update_where c f rows)
ids_below-update_where c f n [] h b = tt
ids_below-update_where c f n (j ∷ js) h b =
    (ground (arith, h j, b.0), ids_below-update_where c f n js h b.1)

-- An update by a test that keeps the ids keeps the table valid, if the index still holds.
pub rows-IsValid :
    (q : Queue) (c : Job → Bool) (f : Job → Job)
    → ((j : Job) → (f j).id ≡ j.id)
    → ((path : String) → live_count path (update_where c f q.rows) ≤ 1)
    → IsValid q
    → IsValid (record q { rows = update_where c f q.rows })
rows-IsValid q c f same one v = record {
  one_live = one;
  ids_unique = λ i. omega (arith, v.ids_unique i, count-update_where-has_id c f i q.rows same);
  ids_below = ids_below-update_where c f q.next_id q.rows same v.ids_below;
}

-- So it does if it makes no row live.
pub update_where-IsValid :
    (q : Queue) (c : Job → Bool) (f : Job → Job)
    → ((j : Job) → (f j).id ≡ j.id)
    → ((path : String)
        → All
            (λ j. holds_path path (if c j then f j else j) ≡ true → holds_path path j ≡ true)
            q.rows)
    → IsValid q
    → IsValid (record q { rows = update_where c f q.rows })
update_where-IsValid q c f same keep v =
    rows-IsValid q c f same
      (λ path. omega (arith, v.one_live path, live_count-update_where c f path q.rows (keep path)))
      v
