-- ===== src/Dates/Gate.antt =====
-- `validate` of nhpc_qa/pipeline/parse/dates.py is the single gate of a reply date.
use nhpc_parliament_rag_syst.Prelude.{
  ℕ, zero, suc, ◌+◌, ◌≤◌, ◌≡◌, refl, Bool, true, false, Option, none, some, leb, leb→le,
  if◌then◌else◌, if_some, none-some, arith, subst,
}
use nhpc_parliament_rag_syst.Dates.{
  Date, DateForm, DateValue, iso_form, numeric_form, named_form, no_value, date_value, text_value,
  year_min, year_max, days_in_month, is_calendar_date, resolve_year, order_day_month, in_window,
  date_of, date_in, parse_form, months, month_in, fits_session, corroborated, value_date, validate,
}

-- A day that the calendar has.
pub record IsReal (d : Date) : Type 0 where
  pub month_low : 1 ≤ d.month
  pub month_high : d.month ≤ 12
  pub day_low : 1 ≤ d.day
  pub day_high : d.day ≤ days_in_month d.year d.month

abbrev pub IsNear : Option ℕ → Date → Type 0
IsNear none d = Unit
IsNear (some zero) d = Unit
IsNear (some (suc s)) d = (d.year ≤ suc s + 1) × (suc s ≤ d.year + 1)

-- A date that may be stored as a reply date.
abbrev pub IsPlausible : Option ℕ → Date → Type 0
IsPlausible session d = IsReal d × (year_min ≤ d.year) × (d.year ≤ year_max) × IsNear session d

-- A date object is a day of the calendar.
abbrev pub IsRealValue : DateValue → Type 0
IsRealValue (date_value d) = IsReal d
IsRealValue v = Unit

Passes : Date → Type 0
Passes d = IsReal d × (in_window d.year ≡ true)

is_calendar_date→IsReal : (d : Date) → is_calendar_date d.year d.month d.day ≡ true → IsReal d
unfolding is_calendar_date
is_calendar_date→IsReal d h = record {
  month_low = ground (arith, h);
  month_high = ground (arith, h);
  day_low = ground (arith, h);
  day_high = ground (arith, h);
}

date_of-Passes : (y : ℕ) (o : Option (ℕ × ℕ)) (d : Date) → date_of y o ≡ some d → Passes d
unfolding Passes
date_of-Passes y none d h = absurd (none-some h)
date_of-Passes y (some (day, mo)) d h =
    let (window, h') = if_some' (in_window y) _ h in
    let (real, e) = if_some (is_calendar_date y mo day) _ h' in
    subst Passes e
      (is_calendar_date→IsReal (record { year = y; month = mo; day = day }) real, window)
  where
    if_some' :
        (b : Bool) (o : Option Date) → (if b then o else none) ≡ some d → (b ≡ true) × (o ≡ some d)
    if_some' true o h = (refl, h)
    if_some' false o h = absurd (none-some h)

parse_form-Passes :
    (form : DateForm) (session : Option ℕ) (d : Date) → parse_form form session ≡ some d → Passes d
unfolding parse_form
parse_form-Passes (iso_form y mo day) session d h = date_of-Passes _ (order_day_month day mo) d h
parse_form-Passes (numeric_form day mo y digits) session d h =
    date_of-Passes _ (order_day_month day mo) d h
parse_form-Passes (named_form day word y digits) session d h = named (month_in months word) h
  where
    named :
        (o : Option ℕ)
        → (elim o as (λ _. Option Date) [
          | none ↦ none
          | some mo ↦ date_in (resolve_year y (leb digits 2) session) mo day
        ])
          ≡ some d
        → Passes d
    named none h = absurd (none-some h)
    named (some mo) h = date_of-Passes _ (order_day_month day mo) d h

value_date-Passes :
    (v : DateValue) (session : Option ℕ) (d : Date)
    → IsRealValue v
    → value_date session v ≡ some d
    → Passes d
unfolding Passes
value_date-Passes no_value session d real h = absurd (none-some h)
value_date-Passes (date_value x) session d real h =
    let (window, e) = if_some (in_window x.year) x h in subst Passes e (real, window)
value_date-Passes (text_value none) session d real h = absurd (none-some h)
value_date-Passes (text_value (some form)) session d real h = parse_form-Passes form session d h

fits_session→IsNear :
    (session : Option ℕ) (d : Date) → fits_session session d ≡ true → IsNear session d
unfolding fits_session
fits_session→IsNear none d h = tt
fits_session→IsNear (some zero) d h = tt
fits_session→IsNear (some (suc s)) d h =
    let le = leb→le _ _ h in (omega (arith, le), omega (arith, le))

-- The gate of the reply date. Whatever the model or the patterns found, a date that `validate` returns
-- is a day of the calendar, lies in the years 2000 to 2050 and at most a year from its session, if a
-- session year is given; a date object handed in is a day of the calendar by its type.
pub validate-IsPlausible :
    (v : DateValue) (session : Option ℕ) (d : Date)
    → IsRealValue v
    → validate v session ≡ some d
    → IsPlausible session d
unfolding validate Passes in_window
validate-IsPlausible v session d real h = go (value_date session v) refl h
  where
    go :
        (o : Option Date)
        → value_date session v ≡ o
        → corroborated session o ≡ some d
        → IsPlausible session d
    go none e h = absurd (none-some h)
    go (some x) e h =
        let (near, same) = if_some (fits_session session x) x h in
        let (is_real, window) = value_date-Passes v session x real e in
        subst (IsPlausible session) same (
          is_real,
          ground (arith, window),
          ground (arith, window),
          fits_session→IsNear session x near,
        )
