-- ===== src/SyncQueue/Folder.antt =====
-- `question_folder` of nhpc_qa/core/queue.py, the queue key of an event.
use nhpc_parliament_rag_syst.Prelude.{
  ◌≤◌, ◌≡◌, refl, ap, sym, ◌∙◌, true, false, Bool, not, ◌&&◌, Option, none, some, List, [], ◌∷◌,
  ◌++◌, arith, if◌then◌else◌, Text, text_eq, split, join, replace, has, starts_with, all, filter,
  take, split-join, has-join, replace-fresh, eq_of_some, text_eq_refl, text_eq→eq, map, false≢true,
  length, length-take-le, Bool-cases, inl, inr,
}
use nhpc_parliament_rag_syst.OsPath.{
  AbsPath, dot_dot, is_real, or_dot, below, rel_parts, rel_parts-append,
}

-- `rel.replace("\\", "/").split("/")` without empty parts and dots.
unfoldable pub real_parts : Text → List Text
unfolding split
real_parts rel = filter is_real (split b'/' (replace 92 b'/' rel))

-- The parts of a path below the source root, as `relpath` gives them.
unfoldable pub parts_below : AbsPath → AbsPath → List Text
unfolding real_parts join rel_parts
parts_below src_root p = real_parts (join b'/' (or_dot (rel_parts p src_root)))

-- At most session/house/question is kept; `none` is a path outside the root, or the root itself.
unfoldable pub keep_folder : AbsPath → List Text → Option AbsPath
keep_folder src_root [] = none
keep_folder src_root (p ∷ ps) =
    if starts_with dot_dot p then none else some (src_root ++ take 3 (p ∷ ps))

unfoldable pub question_folder : AbsPath → AbsPath → Option AbsPath
unfolding parts_below keep_folder
question_folder src_root p = keep_folder src_root (parts_below src_root p)

-- A component as a file system gives it: not empty, not a dot, no slash and no backslash.
abbrev pub is_clean : Text → Bool
is_clean s = is_real s && not (has b'/' s) && not (has 92 s)

filter-clean : (ps : List Text) → all is_clean ps ≡ true → filter is_real ps ≡ ps
filter-clean [] h = refl
filter-clean (p ∷ ps) h = rw (filter-clean ps (ground arith)) (ground arith)

pub no_slash : (ps : List Text) → all is_clean ps ≡ true → all (λ q. not (has b'/' q)) ps ≡ true
no_slash [] h = refl
no_slash (p ∷ ps) h = ground (arith, no_slash ps (ground arith))

pub no_backslash : (ps : List Text) → all is_clean ps ≡ true → all (λ q. not (has 92 q)) ps ≡ true
no_backslash [] h = refl
no_backslash (p ∷ ps) h = ground (arith, no_backslash ps (ground arith))

keep_folder_up :
    (src_root : AbsPath) (rest : List Text) {folder : AbsPath}
    → keep_folder src_root (dot_dot ∷ rest) ≡ some folder
    → ⊥
unfolding keep_folder
keep_folder_up src_root rest e = cc

pub real_parts-join :
    (p : Text) (ps : List Text)
    → all is_clean (p ∷ ps) ≡ true
    → real_parts (join b'/' (p ∷ ps)) ≡ p ∷ ps
unfolding real_parts
real_parts-join p ps h =
    rw
      (replace-fresh 92 b'/' (join b'/' (p ∷ ps))
        (has-join 92 b'/' (p ∷ ps) (λ e. omega (arith, e)) (no_backslash (p ∷ ps) h)))
      (rw (split-join b'/' p ps (no_slash (p ∷ ps) h)) (filter-clean (p ∷ ps) h))

-- The parts of a clean path below the root are its components below the root.
parts_below-append :
    (src_root : AbsPath) (p : Text) (ps : List Text)
    → all is_clean (p ∷ ps) ≡ true
    → parts_below src_root (src_root ++ p ∷ ps) ≡ p ∷ ps
unfolding parts_below
parts_below-append src_root p ps h =
    rw (rel_parts-append src_root (p ∷ ps)) (real_parts-join p ps h)

rel_parts-outside :
    (src_root p : AbsPath)
    → below src_root p ≡ false
    → (rest : List Text) × (rel_parts p src_root ≡ dot_dot ∷ rest)
unfolding rel_parts below
rel_parts-outside [] p h = absurd (false≢true (sym h))
rel_parts-outside (c ∷ root) [] h = (map (λ _. dot_dot) root, refl)
rel_parts-outside (c ∷ root) (d ∷ p) h = elim (Bool-cases (text_eq d c)) [
  | inl e ↦
      let (rest, e') =
        rel_parts-outside root p (ground (arith, text_eq→eq d c e, text_eq_refl c)) in
      (rest, rw e e')
  | inr e ↦ (map (λ _. dot_dot) root ++ d ∷ p, rw e)
]

real_parts-dot_dot :
    (rest : List Text)
    → (more : List Text) × (real_parts (join b'/' (dot_dot ∷ rest)) ≡ dot_dot ∷ more)
unfolding real_parts join
real_parts-dot_dot [] = ([], refl)
real_parts-dot_dot (q ∷ qs) =
    (filter is_real (split b'/' (replace 92 b'/' (join b'/' (q ∷ qs)))), refl)

parts_below-outside :
    (src_root p : AbsPath)
    → below src_root p ≡ false
    → (rest : List Text) × (parts_below src_root p ≡ dot_dot ∷ rest)
unfolding parts_below
parts_below-outside src_root p h =
    let (rest, e) = rel_parts-outside src_root p h in
    let (more, e') = real_parts-dot_dot rest in
    (more, ap (λ (l : List Text). real_parts (join b'/' (or_dot l))) e ∙ e')

-- Every event on a file inside a question folder, however deep, has the folder itself as its key, so
-- all of them meet in one job; this for components that a file system can hold, and a session
-- folder whose name does not begin with "..".
pub question_folder_key :
    (src_root : AbsPath) (session house question : Text) (rest : List Text)
    → all is_clean (session ∷ house ∷ question ∷ rest) ≡ true
    → starts_with dot_dot session ≡ false
    → question_folder src_root (src_root ++ session ∷ house ∷ question ∷ rest)
      ≡ some (src_root ++ session ∷ house ∷ question ∷ [])
unfolding question_folder
question_folder_key src_root s h q rest clean up =
    ap (keep_folder src_root) (parts_below-append src_root s (h ∷ q ∷ rest) clean)
    ∙ (rw (keep_folder, up) refl)

keep_folder_shape :
    (src_root : AbsPath) (ps : List Text) {folder : AbsPath}
    → keep_folder src_root ps ≡ some folder
    → (kept : List Text) × (folder ≡ src_root ++ kept) × (1 ≤ length kept) × (length kept ≤ 3)
unfolding keep_folder
keep_folder_shape src_root [] e = ground arith
keep_folder_shape src_root (p ∷ ps) e = elim (Bool-cases (starts_with dot_dot p)) [
  | inl up ↦ ground arith
  | inr fine ↦
      (take 3 (p ∷ ps), sym (eq_of_some (rw fine at e)), omega arith, length-take-le 3 (p ∷ ps))
]

-- A key exists only for a path below the source root, and is then a folder at one to three levels
-- below the root: an event outside the source tree never becomes a job.
question_folder_inside :
    (src_root p : AbsPath) {folder : AbsPath}
    → question_folder src_root p ≡ some folder
    → (below src_root p ≡ true)
      × ((kept : List Text) × (folder ≡ src_root ++ kept) × (1 ≤ length kept) × (length kept ≤ 3))
unfolding question_folder
question_folder_inside src_root p e = (
  elim (Bool-cases (below src_root p)) [
    | inl inside ↦ inside
    | inr outside ↦
        let (rest, e') = parts_below-outside src_root p outside in
        let e'' : keep_folder src_root (dot_dot ∷ rest) ≡ some _ =
          sym (ap (keep_folder src_root) e') ∙ e in
        absurd (keep_folder_up src_root rest e'')
  ],
  keep_folder_shape src_root (parts_below src_root p) e,
)
