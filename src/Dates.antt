-- ===== src/Dates.antt =====
-- The reply date of nhpc_qa/pipeline/parse/dates.py: `_resolve_year`, `_parse` from the groups that its
-- patterns match, `validate`, and `extract_from_text` from the matches of its anchors.
pub mod Gate
pub mod Years
use nhpc_parliament_rag_syst.Prelude.{
  ℕ, zero, suc, ◌+◌, ◌-◌, ◌/◌, ◌%◌, Bool, true, false, not, ◌&&◌, ◌||◌, Option, none, some, List,
  [], ◌∷◌, String, str_eq, if◌then◌else◌, ltb, leb, ◌==◌,
}

-- `datetime.date`
pub record Date : Type 0 where
  pub year : ℕ
  pub month : ℕ
  pub day : ℕ

-- What one of the three patterns of `_parse` matched: year, month and day; day, month and a year of so
-- many digits; day, the word for the month in lower case and a year of so many digits. The repair of a
-- five-digit year is made before.
pub data DateForm : Type 0 where
  iso_form : ℕ → ℕ → ℕ → DateForm
  numeric_form : ℕ → ℕ → ℕ → ℕ → DateForm
  named_form : ℕ → String → ℕ → ℕ → DateForm

-- The argument of `validate`: nothing or "", a date (or the date of a datetime), or a text with what
-- the patterns find in it.
pub data DateValue : Type 0 where
  no_value : DateValue
  date_value : Date → DateValue
  text_value : Option DateForm → DateValue

abbrev pub year_min : ℕ
year_min = 2000

abbrev pub year_max : ℕ
year_max = 2050

abbrev pub max_years_from_session : ℕ
max_years_from_session = 1

abbrev pub months : List (String × ℕ)
months =
    ("jan", 1)
    ∷ ("january", 1)
    ∷ ("feb", 2)
    ∷ ("february", 2)
    ∷ ("mar", 3)
    ∷ ("march", 3)
    ∷ ("apr", 4)
    ∷ ("april", 4)
    ∷ ("may", 5)
    ∷ ("jun", 6)
    ∷ ("june", 6)
    ∷ ("jul", 7)
    ∷ ("july", 7)
    ∷ ("aug", 8)
    ∷ ("august", 8)
    ∷ ("sep", 9)
    ∷ ("sept", 9)
    ∷ ("september", 9)
    ∷ ("oct", 10)
    ∷ ("october", 10)
    ∷ ("nov", 11)
    ∷ ("november", 11)
    ∷ ("dec", 12)
    ∷ ("december", 12)
    ∷ []

abbrev pub month_in : List (String × ℕ) → String → Option ℕ
month_in [] word = none
month_in ((name, n) ∷ rest) word =
    let later = month_in rest word in if str_eq name word then some n else later

-- The calendar of `datetime.date`.
unfoldable pub is_leap : ℕ → Bool
is_leap y = (y % 4 == 0) && (not (y % 100 == 0) || (y % 400 == 0))

unfoldable pub days_in_month : ℕ → ℕ → ℕ
days_in_month y m =
    if m == 2
    then (if is_leap y then 29 else 28)
    else if (m == 4) || ((m == 6) || ((m == 9) || (m == 11)))
    then 30
    else 31

unfoldable pub is_calendar_date : ℕ → ℕ → ℕ → Bool
unfolding days_in_month
is_calendar_date y m d =
    leb 1 y && (leb y 9999 && (leb 1 m && (leb m 12 && (leb 1 d && leb d (days_in_month y m)))))

unfoldable pub is_part_of : ℕ → ℕ → Bool
is_part_of y cand = (y == cand % 100) || (y == cand / 100)

unfoldable pub resolve_year : ℕ → Bool → Option ℕ → ℕ
unfolding is_part_of
resolve_year y false session_year = y
resolve_year y true none = if ltb y 100 then y + 2000 else y
resolve_year y true (some session) =
    if is_part_of y session
    then session
    else if is_part_of y (session + 1)
    then session + 1
    else 2000 + y

-- Day and month change places only if the first cannot be a day.
abbrev pub order_day_month : ℕ → ℕ → Option (ℕ × ℕ)
order_day_month d mo =
    if ltb 31 d || ltb 12 mo
    then (if leb mo 31 && leb d 12 then some (mo, d) else none)
    else some (d, mo)

unfoldable pub in_window : ℕ → Bool
in_window y = leb year_min y && leb y year_max

abbrev pub date_of : ℕ → Option (ℕ × ℕ) → Option Date
date_of y none = none
date_of y (some (d, mo)) =
    if in_window y
    then (if is_calendar_date y mo d then some (record { year = y; month = mo; day = d }) else none)
    else none

abbrev pub date_in : ℕ → ℕ → ℕ → Option Date
date_in y mo d = date_of y (order_day_month d mo)

unfoldable pub parse_form : DateForm → Option ℕ → Option Date
unfolding resolve_year
parse_form (iso_form y mo d) session = date_in (resolve_year y false session) mo d
parse_form (numeric_form d mo y digits) session =
    date_in (resolve_year y (leb digits 2) session) mo d
parse_form (named_form d word y digits) session = elim (month_in months word) [
  | none ↦ none
  | some mo ↦ date_in (resolve_year y (leb digits 2) session) mo d
]

-- `abs(d.year - session_year)`
abbrev pub years_between : ℕ → ℕ → ℕ
years_between a b = (a - b) + (b - a)

-- A session year that is None or 0 rejects nothing.
unfoldable pub fits_session : Option ℕ → Date → Bool
fits_session none d = true
fits_session (some zero) d = true
fits_session (some (suc s)) d = leb (years_between d.year (suc s)) max_years_from_session

abbrev pub corroborated : Option ℕ → Option Date → Option Date
corroborated session none = none
corroborated session (some d) = if fits_session session d then some d else none

abbrev pub value_date : Option ℕ → DateValue → Option Date
value_date session no_value = none
value_date session (date_value d) = if in_window d.year then some d else none
value_date session (text_value none) = none
value_date session (text_value (some form)) = parse_form form session

unfoldable pub validate : DateValue → Option ℕ → Option Date
unfolding fits_session parse_form
validate v session = corroborated session (value_date session v)

-- The first match, over the texts, the anchors and the places in their order, that passes the gate.
unfoldable pub first_date : Option ℕ → List (Option DateForm) → Option Date
first_date session [] = none
first_date session (m ∷ ms) =
    let rest = first_date session ms in
    elim (validate (text_value m) session) [ none ↦ rest | some d ↦ some d ]
