-- ===== src/Sync/Slice.antt =====
-- `source_slice` of nhpc_qa/watcher/sync.py beside `question_folder` of nhpc_qa/core/queue.py.
use mathlib.Core.Option
use nhpc_parliament_rag_syst.Prelude.{
  ◌≡◌, refl, ap, sym, ◌∙◌, true, false, Option, none, some, List, [], ◌∷◌, ◌++◌, arith, Text,
  starts_with, join, all, Bool-cases, inl, inr,
}
use nhpc_parliament_rag_syst.OsPath.{AbsPath, dot_dot, rel_parts-append}
use nhpc_parliament_rag_syst.SyncQueue.Folder.{
  is_clean, real_parts-join, question_folder, question_folder_key,
}
use nhpc_parliament_rag_syst.Sync.{source_slice, slice_of_parts}

-- A part that does not begin with ".." still does not when a slash follows it.
no_dots-join :
    (p : Text) (ps : List Text)
    → starts_with dot_dot p ≡ false
    → starts_with dot_dot (join b'/' (p ∷ ps)) ≡ false
unfolding join
no_dots-join p [] h = h
no_dots-join [] (q ∷ ps) h = refl
no_dots-join (c ∷ []) (q ∷ ps) h = ground arith
no_dots-join (c ∷ d ∷ p) (q ∷ ps) h = ground arith

source_slice-clean :
    (src_root : AbsPath) (p : Text) (ps : List Text)
    → all is_clean (p ∷ ps) ≡ true
    → starts_with dot_dot p ≡ false
    → source_slice src_root (src_root ++ p ∷ ps) ≡ slice_of_parts (p ∷ ps)
unfolding source_slice
source_slice-clean src_root p ps clean fine =
    rw (rel_parts-append src_root (p ∷ ps))
      (rw (no_dots-join p ps fine) (ap slice_of_parts (real_parts-join p ps clean)))

-- A slice above the question level.
abbrev pub IsShallow : Option (Text × Option Text) → Type 0
IsShallow none = Unit
IsShallow (some (s, none)) = Unit
IsShallow (some (s, some q)) = ⊥

pub source_slice-session :
    (src_root : AbsPath) (s : Text)
    → is_clean s ≡ true
    → IsShallow (source_slice src_root (src_root ++ s ∷ []))
unfolding source_slice
source_slice-session src_root s clean =
    elim (Bool-cases (starts_with dot_dot (join b'/' (s ∷ [])))) [
      | inl up ↦ rw (rel_parts-append src_root (s ∷ []), up) tt
      | inr fine ↦
          rw (rel_parts-append src_root (s ∷ []), fine, real_parts-join s [] (ground arith)) tt
    ]

pub source_slice-house :
    (src_root : AbsPath) (s h : Text)
    → all is_clean (s ∷ h ∷ []) ≡ true
    → IsShallow (source_slice src_root (src_root ++ s ∷ h ∷ []))
unfolding source_slice
source_slice-house src_root s h clean =
    elim (Bool-cases (starts_with dot_dot (join b'/' (s ∷ h ∷ [])))) [
      | inl up ↦ rw (rel_parts-append src_root (s ∷ h ∷ []), up) tt
      | inr fine ↦
          rw (rel_parts-append src_root (s ∷ h ∷ []), fine, real_parts-join s (h ∷ []) clean) tt
    ]

-- The session folder and the number of a file in a question folder are those of its queue key: what
-- the job carries is enough to find the slice again.
pub slice_of_key :
    (src_root : AbsPath) (session house question : Text) (rest : List Text)
    → all is_clean (session ∷ house ∷ question ∷ rest) ≡ true
    → starts_with dot_dot session ≡ false
    → (source_slice src_root (src_root ++ session ∷ house ∷ question ∷ rest)
        ≡ some (session, some question))
      × (Option.map
            (source_slice src_root)
            (question_folder src_root (src_root ++ session ∷ house ∷ question ∷ rest))
          ≡ some (source_slice src_root (src_root ++ session ∷ house ∷ question ∷ rest)))
slice_of_key src_root s h q rest clean fine =
    let deep = source_slice-clean src_root s (h ∷ q ∷ rest) clean fine in
    let key = source_slice-clean src_root s (h ∷ q ∷ []) (ground arith) fine in
    (
      deep,
      ap (Option.map (source_slice src_root)) (question_folder_key src_root s h q rest clean fine)
          ∙ ap some (key ∙ sym deep),
    )
