-- ===== src/Examples/Parsing.antt =====
-- Runs of nhpc_qa/pipeline/parse/spans.py and dates.py.
use nhpc_parliament_rag_syst.Prelude.{
  map, filter, ◌&&◌, text_eq, ◌≡◌, refl, false, some, List, [], ◌∷◌, Text, codes, strip_by, inr,
  arith,
}
use nhpc_parliament_rag_syst.Spans.{
  at, pair, high, RawSub, verify_and_repair, group_answers, lines_key, none_key,
}
use nhpc_parliament_rag_syst.Spans.Sound.{verify_and_repair_sound, IsUsable}
use nhpc_parliament_rag_syst.Spans.Groups.{
  group_answers_exact, parts_of, is_answered, is_unanswered,
}
use nhpc_parliament_rag_syst.Dates.{
  Date, numeric_form, text_value, days_in_month, is_leap, in_window, is_calendar_date, parse_form,
  validate,
}
use nhpc_parliament_rag_syst.Dates.Gate.{validate-IsPlausible, IsPlausible, IsReal}
use nhpc_parliament_rag_syst.Dates.Years.{validate_written}

abbrev lines : List Text
lines = codes "(a) the dams of the state" ∷ codes "ANSWER" ∷ codes "There are two." ∷ []

abbrev part_a : RawSub
part_a = record {
  raw_label = codes "a";
  raw_question_lines = pair (at 0) (at 0);
  raw_answer_lines = pair (at 1) (at 2);
  raw_table_ids = [];
  raw_is_table = false;
  raw_confidence = high;
}

verify_and_repair_sound_example :
    IsUsable lines (verify_and_repair (λ _. false) lines (some part_a ∷ [])).0
unfolding verify_and_repair strip_by
verify_and_repair_sound_example = verify_and_repair_sound (λ _. false) lines (some part_a ∷ []) refl

group_answers_exact_example :
    let subs = (verify_and_repair (λ _. false) lines (some part_a ∷ some part_a ∷ [])).0 in
    (parts_of (lines_key (1, 2)) (group_answers subs)
      ≡ map (λ s. s.part_label) (filter (λ s. is_answered 1 2 s.answer_lines) subs))
    × (parts_of (none_key (codes "a")) (group_answers subs)
        ≡ map
            (λ s. s.part_label)
            (filter (λ s. is_unanswered s.answer_lines && text_eq s.part_label (codes "a")) subs))
group_answers_exact_example =
    group_answers_exact 1 2 (codes "a")
      (verify_and_repair (λ _. false) lines (some part_a ∷ some part_a ∷ [])).0

abbrev reply : Date
reply = record { year = 2024; month = 2; day = 29 }

reply-IsReal : IsReal reply
unfolding days_in_month is_leap
reply-IsReal = record {
  month_low = omega arith;
  month_high = omega arith;
  day_low = omega arith;
  day_high = omega arith;
}

validate-IsPlausible_example : IsPlausible (some 2023) reply
unfolding validate parse_form in_window is_calendar_date is_leap
validate-IsPlausible_example =
    validate-IsPlausible (text_value (some (numeric_form 29 2 24 2))) (some 2023) reply tt refl

validate_written_example :
    validate (text_value (some (numeric_form 29 2 24 2))) (some 2023) ≡ some reply
validate_written_example =
    validate_written (some 2023) reply 24 2
      (reply-IsReal, omega arith, omega arith, (omega arith, omega arith))
      (inr (refl, (refl, inr (refl, ground arith))))
