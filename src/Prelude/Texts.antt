-- ===== src/Prelude/Texts.antt =====
-- Text that the source walks: a list of code points, with Python's `split`, `join`, `replace`,
-- `strip` and `lower` (of ASCII letters) as the source calls them.
use Prim.Native.Nat.{ℕ, ◌+◌}
use Prim.Native.Char.{code}
use Prim.Native.String.{String}
use mathlib.Core.Path.{◌≡◌, refl, ap, ap₂, ◌∙◌}
use mathlib.Core.Logic.{◌≢◌}
use mathlib.Core.Bool.{Bool, true, false, not, ◌&&◌, ◌||◌}
use mathlib.Core.List.{List, [], ◌∷◌, ◌++◌, map, reverse}
use native.Mathlib.Omega.{arith}
use nhpc_parliament_rag_syst.Prelude.Tests.{◌==◌, leb, if◌then◌else◌}
use nhpc_parliament_rag_syst.Prelude.Lists.{any, all}

abbrev pub Text : Type 0
Text = List ℕ

-- A text literal.
abbrev pub codes : String → Text
codes String.[] = []
codes (String.◌∷◌ c s) = code c ∷ codes s

abbrev pub text_eq : Text → Text → Bool
text_eq [] [] = true
text_eq [] (d ∷ t) = false
text_eq (c ∷ s) [] = false
text_eq (c ∷ s) (d ∷ t) = c == d && text_eq s t

pub text_eq→eq : (s t : Text) → text_eq s t ≡ true → s ≡ t
text_eq→eq [] [] h = refl
text_eq→eq [] (d ∷ t) h = ground arith
text_eq→eq (c ∷ s) [] h = ground arith
text_eq→eq (c ∷ s) (d ∷ t) h =
    ap₂ (λ (x : ℕ) (y : Text). x ∷ y) (ground arith) (text_eq→eq s t (ground arith))

pub text_eq_refl : (s : Text) → text_eq s s ≡ true
text_eq_refl [] = refl
text_eq_refl (c ∷ s) = ground (arith, text_eq_refl s)

abbrev pub starts_with : Text → Text → Bool
starts_with [] t = true
starts_with (c ∷ s) [] = false
starts_with (c ∷ s) (d ∷ t) = c == d && starts_with s t

abbrev pub ends_with : Text → Text → Bool
ends_with s t = starts_with (reverse s) (reverse t)

-- `c in t`
abbrev pub has : ℕ → Text → Bool
has c t = any (λ d. d == c) t

-- `s in t`
abbrev pub has_text : Text → Text → Bool
has_text s [] = starts_with s []
has_text s (c ∷ t) = starts_with s (c ∷ t) || has_text s t

-- `t.replace(c, d)` for single characters.
abbrev pub replace : ℕ → ℕ → Text → Text
replace c d t = map (λ x. if x == c then d else x) t

-- Puts a character before the first of the parts.
abbrev pub push_first : ℕ → List Text → List Text
push_first c [] = (c ∷ []) ∷ []
push_first c (p ∷ ps) = (c ∷ p) ∷ ps

-- `t.split(sep)`, of which an empty text has one empty part.
unfoldable pub split : ℕ → Text → List Text
split sep [] = [] ∷ []
split sep (c ∷ t) = let rest = split sep t in if c == sep then [] ∷ rest else push_first c rest

-- `sep.join(parts)`
unfoldable pub join : ℕ → List Text → Text
join sep [] = []
join sep (p ∷ []) = p
join sep (p ∷ q ∷ ps) = p ++ sep ∷ join sep (q ∷ ps)

-- What `str.isspace` accepts.
unfoldable pub is_space : ℕ → Bool
is_space c =
    c == 32
    || (leb 9 c && leb c 13)
    || (leb 28 c && leb c 31)
    || c == 133
    || c == 160
    || c == 0x1680
    || (leb 0x2000 c && leb c 0x200a)
    || c == 0x2028
    || c == 0x2029
    || c == 0x202f
    || c == 0x205f
    || c == 0x3000

-- Drops leading characters that pass a test.
unfoldable pub drop_while : (ℕ → Bool) → Text → Text
drop_while p [] = []
drop_while p (c ∷ t) = if p c then drop_while p t else c ∷ t

unfoldable pub strip_by : (ℕ → Bool) → Text → Text
unfolding drop_while
strip_by p t = reverse (drop_while p (reverse (drop_while p t)))

abbrev pub strip : Text → Text
strip = strip_by is_space

abbrev pub lower_char : ℕ → ℕ
lower_char c = if leb b'A' c && leb c b'Z' then c + 32 else c

abbrev pub lower : Text → Text
lower = map lower_char

split-append :
    (sep : ℕ) (p rest : Text) → has sep p ≡ false → split sep (p ++ sep ∷ rest) ≡ p ∷ split sep rest
unfolding split
split-append sep [] rest h = ground arith
split-append sep (c ∷ p) rest h = rw (split-append sep p rest (ground arith)) (ground arith)

split-one : (sep : ℕ) (p : Text) → has sep p ≡ false → split sep p ≡ p ∷ []
unfolding split
split-one sep [] h = refl
split-one sep (c ∷ p) h = rw (split-one sep p (ground arith)) (ground arith)

-- Splitting what was joined gives the parts back, where no part has the separator.
pub split-join :
    (sep : ℕ) (p : Text) (ps : List Text)
    → all (λ q. not (has sep q)) (p ∷ ps) ≡ true
    → split sep (join sep (p ∷ ps)) ≡ p ∷ ps
unfolding join
split-join sep p [] h = split-one sep p (ground arith)
split-join sep p (q ∷ ps) h =
    split-append sep p (join sep (q ∷ ps)) (ground arith)
    ∙ ap (λ (r : List Text). p ∷ r) (split-join sep q ps (ground arith))

pub has-append : (c : ℕ) (s t : Text) → has c (s ++ t) ≡ has c s || has c t
has-append c [] t = refl
has-append c (d ∷ s) t = ground (arith, has-append c s t)

pub has-join :
    (c sep : ℕ) (ps : List Text)
    → c ≢ sep
    → all (λ q. not (has c q)) ps ≡ true
    → has c (join sep ps) ≡ false
unfolding join
has-join c sep [] ne h = refl
has-join c sep (p ∷ []) ne h = ground arith
has-join c sep (p ∷ q ∷ ps) ne h =
    ground (
      arith,
      has-append c p (sep ∷ join sep (q ∷ ps)),
      has-join c sep (q ∷ ps) ne (ground arith),
      ne,
    )

pub replace-fresh : (c d : ℕ) (t : Text) → has c t ≡ false → replace c d t ≡ t
replace-fresh c d [] h = refl
replace-fresh c d (x ∷ t) h =
    ap₂ (λ (a : ℕ) (b : Text). a ∷ b) (ground arith) (replace-fresh c d t (ground arith))

pub has-replace : (c d : ℕ) (t : Text) → c ≢ d → has c (replace c d t) ≡ false
has-replace c d [] ne = refl
has-replace c d (x ∷ t) ne = ground (arith, has-replace c d t ne, ne)
