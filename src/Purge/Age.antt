-- ===== src/Purge/Age.antt =====
-- `parse_age` of nhpc_qa/watcher/purge.py: digits and a unit, with space around them.
use nhpc_parliament_rag_syst.Prelude.{
  ℕ, ◌+◌, ◌*◌, ◌-◌, ◌≡◌, refl, ap, ◌∙◌, Bool, true, false, none, some, [], ◌∷◌, ◌++◌, arith, Text,
  lower, lower_char, is_space, all,
}
use nhpc_parliament_rag_syst.Purge.{
  is_digit, unit_seconds, parse_unit, parse_digits, skip_space, parse_age,
}

-- The number that digits stand for, after a number that stands before them.
abbrev pub value_from : ℕ → Text → ℕ
value_from n [] = n
value_from n (c ∷ s) = value_from (n * 10 + (c - b'0')) s

digit_not_space : (c : ℕ) → is_digit c ≡ true → is_space c ≡ false
unfolding is_space
digit_not_space c h = ground arith

lower-digits : (ds rest : Text) → all is_digit ds ≡ true → lower (ds ++ rest) ≡ ds ++ lower rest
lower-digits [] rest h = refl
lower-digits (c ∷ ds) rest h = ground (arith, lower-digits ds rest)

skip_space-digit :
    (c : ℕ) (s : Text) → is_digit c ≡ true → skip_space (c ∷ s) ≡ parse_digits false 0 (c ∷ s)
unfolding skip_space
skip_space-digit c s h = rw (digit_not_space c h)

parse_digits-step :
    (seen : Bool) (n c : ℕ) (s : Text)
    → is_digit c ≡ true
    → parse_digits seen n (c ∷ s) ≡ parse_digits true (n * 10 + (c - b'0')) s
unfolding parse_digits
parse_digits-step seen n c s h = rw h

parse_digits-digits :
    (n : ℕ) (ds rest : Text)
    → all is_digit ds ≡ true
    → parse_digits true n (ds ++ rest) ≡ parse_digits true (value_from n ds) rest
parse_digits-digits n [] rest h = refl
parse_digits-digits n (d ∷ ds) rest h =
    parse_digits-step true n d (ds ++ rest) (ground arith)
    ∙ parse_digits-digits (n * 10 + (d - b'0')) ds rest (ground arith)

-- A letter that is no digit and no space ends the number and is the unit.
parse_digits-unit :
    (n u : ℕ)
    → is_digit u ≡ false
    → is_space u ≡ false
    → parse_digits true n (u ∷ []) ≡ elim (unit_seconds u) [ none ↦ none | some k ↦ some (n * k) ]
unfolding parse_digits parse_unit
parse_digits-unit n u d s = rw (d, s)

-- Digits followed by a unit letter give their decimal value in that unit's seconds; for every
-- other letter the age is refused.
pub parse_age_exact :
    (d : ℕ) (ds : Text) (u : ℕ)
    → all is_digit (d ∷ ds) ≡ true
    → is_digit (lower_char u) ≡ false
    → is_space (lower_char u) ≡ false
    → parse_age (d ∷ ds ++ u ∷ []) ≡ elim (unit_seconds (lower_char u)) [
      | none ↦ none
      | some k ↦ some (value_from 0 (d ∷ ds) * k)
    ]
unfolding parse_age
parse_age_exact d ds u digits not_digit not_space =
    ap skip_space (lower-digits (d ∷ ds) (u ∷ []) digits)
    ∙ skip_space-digit d (ds ++ lower_char u ∷ []) (ground arith)
    ∙ parse_digits-step false 0 d (ds ++ lower_char u ∷ []) (ground arith)
    ∙ parse_digits-digits (0 * 10 + (d - b'0')) ds (lower_char u ∷ []) (ground arith)
    ∙ parse_digits-unit (value_from (0 * 10 + (d - b'0')) ds) (lower_char u) not_digit not_space
