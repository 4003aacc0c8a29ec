-- ===== src/Auth/Policy.antt =====
-- `check_policy` of nhpc_qa/api/security/passwords.py. Which characters are decimal digits is Unicode's.
use nhpc_parliament_rag_syst.Prelude.{
  ℕ, ◌+◌, Bool, false, not, ◌&&◌, ◌||◌, Option, none, some, List, [], ◌∷◌, ◌++◌, String, any,
  length, ltb, leb, ◌==◌, if◌then◌else◌, Text, codes, text_eq, has, has_text, lower, split,
}

pub data Problem : Type 0 where
  too_short too_long too_few_classes is_common has_common has_email_name too_little_variety :
      Problem

-- `_COMMON`
abbrev common_words : List String
common_words =
    "password" ∷ "password1" ∷ "passw0rd" ∷ "qwerty" ∷ "letmein" ∷ "welcome" ∷ "admin"
    ∷ "administrator" ∷ "changeme" ∷ "abc123" ∷ "iloveyou" ∷ "monkey" ∷ "dragon" ∷ "123456"
    ∷ "12345678" ∷ "123456789" ∷ "1234567890" ∷ "111111" ∷ "000000" ∷ "nhpc" ∷ "nhpc123"
    ∷ "nhpc@123" ∷ "parliament" ∷ "officer" ∷ "secret" ∷ []

abbrev pub is_lower_letter : ℕ → Bool
is_lower_letter c = leb 97 c && leb c 122

abbrev pub is_upper_letter : ℕ → Bool
is_upper_letter c = leb 65 c && leb c 90

abbrev pub is_symbol : ℕ → Bool
is_symbol c = not (is_lower_letter c || (is_upper_letter c || (leb 48 c && leb c 57)))

abbrev one_if : Bool → ℕ
one_if b = if b then 1 else 0

unfoldable pub classes : (ℕ → Bool) → Text → ℕ
classes is_decimal pw =
    one_if (any is_lower_letter pw)
    + one_if (any is_upper_letter pw)
    + one_if (any is_decimal pw)
    + one_if (any is_symbol pw)

-- `len(set(pw))`
unfoldable pub distinct : Text → ℕ
distinct [] = 0
distinct (c ∷ t) = (if has c t then 0 else 1) + distinct t

abbrev when : Bool → Problem → List Problem
when b p = if b then p ∷ [] else []

abbrev first_part : List Text → Text
first_part [] = []
first_part (t ∷ ts) = t

-- `local and len(local) >= 3 and local in low`
abbrev echoes_email : Option Text → Text → Bool
echoes_email none low = false
echoes_email (some email) low =
    let name = lower (first_part (split 64 email)) in leb 3 (length name) && has_text name low

unfoldable pub check_policy : (ℕ → Bool) → ℕ → Text → Option Text → List Problem
unfolding classes distinct
check_policy is_decimal min_length pw email =
    let low = lower pw in
    when (ltb (length pw) min_length) too_short
    ++ (when (ltb 200 (length pw)) too_long
        ++ (when (ltb (classes is_decimal pw) 3) too_few_classes
            ++ (when (any (λ w. text_eq (codes w) low) common_words) is_common
                ++ (when
                      (any (λ w. leb 6 (length (codes w)) && has_text (codes w) low) common_words)
                      has_common
                    ++ (when (echoes_email email low) has_email_name
                        ++ when (not (length pw == 0) && leb (distinct pw) 4)
                            too_little_variety)))))
