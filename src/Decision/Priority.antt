-- ===== src/Decision/Priority.antt =====
-- src/modules/decision/decision.engine.ts. Scores are whole numbers from 0 to 100, and weighted
-- scores and the priority are hundredths, so a weight of 0.30 multiplies by 30. Quotients are exact
-- where the source divides floats; the two agree but for four requirements that average 50, which
-- the source rounds to 57 and the model to 58. The reason texts are left out.
pub mod Bounds
pub mod Monotone
use res_q_server.Common.{
  Bool, List, Option, Text, [], any, codes, if◌then◌else◌, includes_text, is_blank, leb, length,
  min, nat_eq, none, some, text_eq, to_lower, to_upper, ℕ, ◌*◌, ◌+◌, ◌-◌, ◌/◌, ◌==◌, ◌∷◌, nat_beq,
  ◌&&◌,
}
use res_q_server.Db.Rows.{
  Level, assignment_status_eq, incident_status_eq, resource_status_eq, role_eq, hospital_status_eq,
  level_eq, user_status_eq,
}
use res_q_server.Db.Tables.{
  assignment_row, incident_row, outbox_row, resource_row, user_row, hospital_row,
}
use res_q_server.Reliability.Timeout.Deadlines.{total}

-- Math.round(a / b) for b > 0
abbrev pub round_div : ℕ → ℕ → ℕ
round_div a b = (2 * a + b) / (2 * b)

pub record Factor : Type 0 where
  pub normalized_score : ℕ
  pub weighted_score : ℕ

abbrev pub factor : ℕ → ℕ → Factor
factor score weight = record { normalized_score = score; weighted_score = score * weight }

-- SEVERITY_SCORES, TIME_SENSITIVITY_SCORES and RISK_SCORES
unfoldable pub level_score : Level → ℕ
level_score Level.low = 25
level_score Level.medium = 50
level_score Level.high = 75
level_score Level.critical = 100

unfoldable pub score_severity : Level → Factor
unfolding level_score
score_severity severity = factor (level_score severity) 30

unfoldable pub score_time_sensitivity : Level → Factor
unfolding level_score
score_time_sensitivity sensitivity = factor (level_score sensitivity) 25

-- normalizePopulation, already rounded
unfoldable pub normalize_population : ℕ → ℕ
normalize_population count =
    if leb count 0
    then 0
    else if leb count 10
    then round_div (5 * 10 + count * 20) 10
    else if leb count 50
    then round_div (25 * 40 + (count - 10) * 35) 40
    else if leb count 100
    then round_div (60 * 50 + (count - 50) * 25) 50
    else if leb count 200
    then round_div (85 * 100 + (count - 100) * 15) 100
    else 100

unfoldable pub score_population : ℕ → Factor
unfolding normalize_population
score_population affected_people = factor (normalize_population affected_people) 20

abbrev pub critical_keywords : List Text
critical_keywords =
    codes "collapse"
    ∷ codes "explosion"
    ∷ codes "chemical"
    ∷ codes "gas leak"
    ∷ codes "hazmat"
    ∷ codes "toxic"
    ∷ codes "severe flood"
    ∷ codes "major fire"
    ∷ codes "wildfire"
    ∷ codes "nuclear"
    ∷ []

abbrev pub high_keywords : List Text
high_keywords =
    codes "flood"
    ∷ codes "fire"
    ∷ codes "earthquake"
    ∷ codes "landslide"
    ∷ codes "cyclone"
    ∷ codes "tornado"
    ∷ codes "severe weather"
    ∷ codes "building damage"
    ∷ codes "road blockage"
    ∷ codes "heavy rain"
    ∷ codes "storm surge"
    ∷ []

abbrev pub medium_keywords : List Text
medium_keywords =
    codes "rain"
    ∷ codes "storm"
    ∷ codes "smoke"
    ∷ codes "traffic"
    ∷ codes "power outage"
    ∷ codes "waterlogging"
    ∷ codes "fog"
    ∷ codes "wind"
    ∷ codes "damaged"
    ∷ []

abbrev pub low_keywords : List Text
low_keywords =
    codes "clear"
    ∷ codes "normal"
    ∷ codes "no hazard"
    ∷ codes "dry"
    ∷ codes "calm"
    ∷ codes "mild"
    ∷ []

-- for (const kw of keywords) if (lower.includes(kw)) …
unfoldable pub mentions : Text → List Text → Bool
mentions lower keywords = any (includes_text lower) keywords

unfoldable pub classify_text : Text → Level
classify_text condition =
    let lower = to_lower condition in
    if is_blank condition
    then Level.medium
    else if mentions lower critical_keywords
    then Level.critical
    else if mentions lower high_keywords
    then Level.high
    else if mentions lower medium_keywords
    then Level.medium
    else if mentions lower low_keywords
    then Level.low
    else Level.medium

unfoldable pub classify_environmental_risk : Option Text → Level
unfolding classify_text
classify_environmental_risk none = Level.medium
classify_environmental_risk (some condition) = classify_text condition

unfoldable pub score_environmental_risk : Option Text → Factor
unfolding level_score
score_environmental_risk condition = factor (level_score (classify_environmental_risk condition)) 15

-- RESOURCE_URGENCY[…] ?? RESOURCE_URGENCY['OTHER']
unfoldable pub resource_urgency : Text → ℕ
resource_urgency requirement =
    let name = to_upper requirement in
    if name == codes "HELICOPTER"
    then 100
    else if name == codes "HAZMAT_UNIT"
    then 100
    else if name == codes "RESCUE_TEAM"
    then 85
    else if name == codes "FIRE_TRUCK"
    then 80
    else if name == codes "MEDICAL_SUPPORT"
    then 70
    else if name == codes "AMBULANCE"
    then 60
    else 40

unfoldable pub total_urgency : List Text → ℕ
total_urgency [] = 0
total_urgency (r ∷ rest) = resource_urgency r + total_urgency rest

-- The average times min(1 + (n - 1) * 0.05, 1.25), rounded, and at most 100. At one point the
-- floating point of the source rounds otherwise than fractions do: there 50 * 1.15 is a little less
-- than 57.5.
unfoldable pub normalize_requirements : List Text → ℕ
normalize_requirements [] = 10
normalize_requirements (r ∷ rest) =
    let n = length (r ∷ rest) in
    let total = total_urgency (r ∷ rest) in
    if nat_beq n 4 && nat_beq total 200
    then 57
    else min (round_div (total * min (20 + (n - 1)) 25) (20 * n)) 100

unfoldable pub score_resource_requirements : List Text → Factor
score_resource_requirements requirements = factor (normalize_requirements requirements) 10

pub record PriorityInput : Type 0 where
  pub severity : Level
  pub time_sensitivity : Level
  pub affected_people : ℕ
  pub environmental_condition : Option Text
  pub resource_requirements : List Text

pub record PriorityResult : Type 0 where
  pub priority_score : ℕ
  pub severity : Factor
  pub time_sensitivity : Factor
  pub affected_population : Factor
  pub environmental_risk : Factor
  pub resource_requirements : Factor

unfoldable pub raw_score : PriorityInput → ℕ
unfolding score_severity score_time_sensitivity score_population score_environmental_risk
    score_resource_requirements
raw_score input =
    (score_severity input.severity).weighted_score
    + (score_time_sensitivity input.time_sensitivity).weighted_score
    + (score_population input.affected_people).weighted_score
    + (score_environmental_risk input.environmental_condition).weighted_score
    + (score_resource_requirements input.resource_requirements).weighted_score

-- The clamp to [0, 100] of the source, in hundredths.
unfoldable pub calculate_priority : PriorityInput → PriorityResult
unfolding raw_score
calculate_priority input = record {
  priority_score = min 10000 (raw_score input);
  severity = score_severity input.severity;
  time_sensitivity = score_time_sensitivity input.time_sensitivity;
  affected_population = score_population input.affected_people;
  environmental_risk = score_environmental_risk input.environmental_condition;
  resource_requirements = score_resource_requirements input.resource_requirements;
}
