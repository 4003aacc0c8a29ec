-- ===== src/OsPath.antt =====
-- What the source uses of Python's `os.path`, on POSIX: an absolute path is the list of its
-- components, normalised as `abspath` does; a path text is split at its slashes.
use nhpc_parliament_rag_syst.Prelude.{
  ◌≡◌, refl, sym, true, false, Bool, not, ◌&&◌, List, [], ◌∷◌, ◌++◌, arith, if◌then◌else◌, Text,
  codes, text_eq, text_eq_refl, text_eq→eq, split, map, ap₂,
}

-- The components of an absolute path, the root first.
abbrev pub AbsPath : Type 0
AbsPath = List Text

abbrev pub dot : Text
dot = b'.' ∷ []

abbrev pub dot_dot : Text
dot_dot = b'.' ∷ b'.' ∷ []

-- `x and x != "."`
abbrev pub is_real : Text → Bool
is_real [] = false
is_real (c ∷ s) = not (text_eq (c ∷ s) dot)

unfoldable pub drop_last : AbsPath → AbsPath
drop_last [] = []
drop_last (c ∷ []) = []
drop_last (c ∷ d ∷ cs) = c ∷ drop_last (d ∷ cs)

-- One component after a normalised path: empty and "." do nothing, ".." goes up and stays at the root.
unfoldable pub step : AbsPath → Text → AbsPath
unfolding drop_last
step done s =
    if is_real s then (if text_eq s dot_dot then drop_last done else done ++ s ∷ []) else done

unfoldable pub normalise : AbsPath → List Text → AbsPath
normalise done [] = done
normalise done (s ∷ ss) = normalise (step done s) ss

-- `os.path.join(base, rel)` as it stands, its components neither resolved nor dropped: what `realpath`
-- is given.
unfoldable pub raw_join : AbsPath → Text → List Text
unfolding split
raw_join base [] = base ++ [] ∷ []
raw_join base (c ∷ rel) = elim (text_eq (c ∷ []) (codes "/")) [
  | true ↦ split b'/' rel
  | false ↦ base ++ split b'/' (c ∷ rel)
]

-- The components of `target` below `root`, if it is at or below it: `os.path.commonpath` of the two
-- is `root` exactly then.
unfoldable pub below : AbsPath → AbsPath → Bool
below [] target = true
below (c ∷ root) [] = false
below (c ∷ root) (d ∷ target) = text_eq c d && below root target

-- `os.path.relpath(target, root)`, as components: ".." for each component of the root that is left.
unfoldable pub rel_parts : AbsPath → AbsPath → List Text
rel_parts [] root = map (λ _. dot_dot) root
rel_parts (d ∷ target) [] = d ∷ target
rel_parts (d ∷ target) (c ∷ root) =
    let deeper = rel_parts target root in
    if text_eq d c then deeper else map (λ _. dot_dot) (c ∷ root) ++ d ∷ target

abbrev pub or_dot : List Text → List Text
or_dot [] = dot ∷ []
or_dot (p ∷ ps) = p ∷ ps

pub rel_parts-append : (root rest : AbsPath) → rel_parts (root ++ rest) root ≡ rest
unfolding rel_parts
rel_parts-append [] [] = refl
rel_parts-append [] (d ∷ rest) = refl
rel_parts-append (c ∷ root) rest = rw (text_eq_refl c) (rel_parts-append root rest)

pub below-append : (root rest : AbsPath) → below root (root ++ rest) ≡ true
unfolding below
below-append [] rest = refl
below-append (c ∷ root) rest = rw (text_eq_refl c) (below-append root rest)

-- A path at or below the root is the root with more components.
pub below→append :
    (root target : AbsPath) → below root target ≡ true → (rest : AbsPath) × (target ≡ root ++ rest)
unfolding below
below→append [] target h = (target, refl)
below→append (c ∷ root) [] h = (ground arith)
below→append (c ∷ root) (d ∷ target) h =
    let (rest, e) = below→append root target (ground arith) in
    (rest, ap₂ (λ (a : Text) (b : AbsPath). a ∷ b) (sym (text_eq→eq c d (ground arith))) e)
