-- ===== src/Dates/Years.antt =====
-- A date that is written out and read again: `_resolve_year` and `validate` of
-- nhpc_qa/pipeline/parse/dates.py.
use nhpc_parliament_rag_syst.Prelude.{
  ℕ, zero, suc, ◌+◌, ◌/◌, ◌%◌, ◌≤◌, ◌≡◌, ◌≢◌, ◌⊎◌, inl, inr, refl, ap, sym, ◌∙◌, Bool, true, Option,
  none, some, leb, le→leb, if◌then◌else◌, arith,
}
use nhpc_parliament_rag_syst.Dates.{
  Date, numeric_form, text_value, year_min, year_max, days_in_month, is_calendar_date, is_part_of,
  resolve_year, order_day_month, in_window, date_of, date_in, parse_form, fits_session,
  corroborated, validate,
}
use nhpc_parliament_rag_syst.Dates.Gate.{IsReal, IsNear, IsPlausible}

-- The ways in which the year of a document of a session is written: with its four digits, or with its
-- last two, the year being that of the session or, where its last two digits are not the first two of
-- the session's year, the next.
abbrev pub IsShort : Option ℕ → ℕ → ℕ → Type 0
IsShort none year token = ⊥
IsShort (some s) year token =
    (token ≡ year % 100) × ((year ≡ s) ⊎ ((year ≡ s + 1) × (year % 100 ≢ s / 100)))

abbrev pub IsWritten : Option ℕ → ℕ → ℕ → ℕ → Type 0
IsWritten session year token digits =
    ((digits ≡ 4) × (token ≡ year)) ⊎ ((digits ≡ 2) × IsShort session year token)

short_same : (s : ℕ) → resolve_year (s % 100) true (some s) ≡ s
unfolding resolve_year is_part_of
short_same s = ground arith

short_next : (s : ℕ) → (s + 1) % 100 ≢ s / 100 → resolve_year ((s + 1) % 100) true (some s) ≡ s + 1
unfolding resolve_year is_part_of
short_next s apart = ground (arith, apart)

days_in_month_le : (y m : ℕ) → days_in_month y m ≤ 31
unfolding days_in_month
days_in_month_le y m = ground arith

order_day_month_kept : (d mo : ℕ) → d ≤ 31 → mo ≤ 12 → order_day_month d mo ≡ some (d, mo)
order_day_month_kept d mo h h' = ground (arith, h, h')

resolve_written :
    (session : Option ℕ) (year token digits : ℕ)
    → IsWritten session year token digits
    → resolve_year token (leb digits 2) session ≡ year
unfolding resolve_year
resolve_written session year token digits (inl (four, same)) =
    ap (λ (n : ℕ). resolve_year token (leb n 2) session) four ∙ same
resolve_written none year token digits (inr (two, short)) = absurd short
resolve_written (some s) year token digits (inr (two, (short, inl same))) =
    ap (λ (n : ℕ). resolve_year token (leb n 2) (some s)) two
    ∙ ap (λ (n : ℕ). resolve_year n true (some s)) (short ∙ ap (λ (n : ℕ). n % 100) same)
    ∙ short_same s
    ∙ sym same
resolve_written (some s) year token digits (inr (two, (short, inr (next, apart)))) =
    ap (λ (n : ℕ). resolve_year token (leb n 2) (some s)) two
    ∙ ap (λ (n : ℕ). resolve_year n true (some s)) (short ∙ ap (λ (n : ℕ). n % 100) next)
    ∙ short_next s (λ e. apart (ap (λ (n : ℕ). n % 100) next ∙ e))
    ∙ sym next

IsReal→is_calendar_date :
    (d : Date)
    → IsReal d
    → year_min ≤ d.year
    → d.year ≤ year_max
    → is_calendar_date d.year d.month d.day ≡ true
unfolding is_calendar_date
IsReal→is_calendar_date d real low high =
    ground (arith, real.month_low, real.month_high, real.day_low, real.day_high, low, high)

IsNear→fits_session :
    (session : Option ℕ) (d : Date) → IsNear session d → fits_session session d ≡ true
unfolding fits_session
IsNear→fits_session none d h = refl
IsNear→fits_session (some zero) d h = refl
IsNear→fits_session (some (suc s)) d h = le→leb _ _ (omega (arith, h.0, h.1))

date_in-real :
    (d : Date)
    → IsReal d
    → year_min ≤ d.year
    → d.year ≤ year_max
    → date_in d.year d.month d.day ≡ some d
unfolding in_window
date_in-real d real low high =
    let kept =
      order_day_month_kept d.day d.month
        (omega (arith, real.day_high, days_in_month_le d.year d.month)) real.month_high in
    let window : in_window d.year ≡ true = ground (arith, low, high) in
    ap (date_of d.year) kept
    ∙ ap
        (λ (b : Bool).
          if b then (if is_calendar_date d.year d.month d.day then some d else none) else none)
        window
    ∙ ap (λ (b : Bool). if b then some d else none) (IsReal→is_calendar_date d real low high)

-- A plausible date that is written day first, in digits, is read back. The year may have its four digits,
-- or two if it is the session's year, or the next one and its last two digits are not the first two of
-- the session's year.
pub validate_written :
    (session : Option ℕ) (d : Date) (token digits : ℕ)
    → IsPlausible session d
    → IsWritten session d.year token digits
    → validate (text_value (some (numeric_form d.day d.month token digits))) session ≡ some d
unfolding validate parse_form
validate_written session d token digits (real, low, high, near) written =
    ap (λ (y : ℕ). corroborated session (date_in y d.month d.day))
      (resolve_written session d.year token digits written)
    ∙ ap (corroborated session) (date_in-real d real low high)
    ∙ ap (λ (b : Bool). if b then some d else none) (IsNear→fits_session session d near)
