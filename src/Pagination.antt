-- ===== src/Pagination.antt =====
-- src/utils/pagination.ts, and the page that every listing read builds with it.
pub mod Pages
use res_q_server.Common.{
  Bool, Eq, List, Option, Text, [], drop, if◌then◌else◌, leb, length, ltb, min, nat_beq, nat_eq,
  none, some, take, text_eq, true, ℕ, ◌&&◌, ◌*◌, ◌+◌, ◌-◌, ◌/◌, ◌==◌, ◌||◌, ◌∷◌,
}
use res_q_server.Incident.Defs.{default}
use res_q_server.Db.Rows.{
  assignment_status_eq, hospital_status_eq, incident_status_eq, level_eq, resource_status_eq,
  role_eq, user_status_eq,
}
use res_q_server.Db.Tables.{
  assignment_row, hospital_row, incident_row, outbox_row, resource_row, user_row,
}

pub record PaginationParams : Type 0 where
  pub page : ℕ
  pub limit : ℕ

pub record PaginationMeta : Type 0 where
  pub page : ℕ
  pub limit : ℕ
  pub total : ℕ
  pub total_pages : ℕ
  pub has_next_page : Bool
  pub has_prev_page : Bool

pub record PaginatedResult {ℓ} (A : Type ℓ) : Type ℓ where
  pub items : List A
  pub pagination : PaginationMeta

-- White space that parseInt skips, of ASCII and the no-break space.
abbrev is_space : ℕ → Bool
is_space c = nat_beq c 32 || leb 9 c && leb c 13 || nat_beq c 160

abbrev is_digit : ℕ → Bool
is_digit c = leb b'0' c && leb c b'9'

-- The digits at the head of a text, read in base 10 after `n`.
abbrev read_digits : ℕ → Text → ℕ
read_digits n [] = n
read_digits n (c ∷ s) =
    let rest = read_digits (n * 10 + (c - b'0')) s in if is_digit c then rest else n

-- What follows the sign.
abbrev parse_digits : Text → Option ℕ
parse_digits [] = none
parse_digits (c ∷ s) = if is_digit c then some (read_digits 0 (c ∷ s)) else none

-- parseInt(s, 10), with `none` for NaN and for a number below zero, which no caller tells apart.
abbrev parse_int : Text → Option ℕ
parse_int [] = none
parse_int (c ∷ s) =
    let rest = parse_int s in
    if is_space c then rest else parse_digits (if nat_beq c b'+' then s else c ∷ s)

-- `!isNaN(parsed) && parsed >= 1`
abbrev positive_or : ℕ → (ℕ → ℕ) → Option ℕ → ℕ
positive_or default clamp none = default
positive_or default clamp (some n) = if leb 1 n then clamp n else default

-- A parameter of the query that is not one string leaves the default.
abbrev parse_param : ℕ → (ℕ → ℕ) → Option Text → ℕ
parse_param default clamp none = default
parse_param default clamp (some raw) = positive_or default clamp (parse_int raw)

unfoldable pub parse_pagination :
    (default_limit max_limit : ℕ) (raw_page raw_limit : Option Text) → PaginationParams
parse_pagination default_limit max_limit raw_page raw_limit = record {
  page = parse_param 1 (λ n. n) raw_page;
  limit = parse_param default_limit (λ n. min n max_limit) raw_limit;
}

-- buildPaginationMeta
abbrev pub skip_of : PaginationParams → ℕ
skip_of params = (params.page - 1) * params.limit

-- Math.ceil(total / limit), for a limit that is not 0
abbrev pub ceil_div : ℕ → ℕ → ℕ
ceil_div total limit = (total + limit - 1) / limit

-- The rows that pass the filter, in the order of the query, are counted and cut.
unfoldable pub paginate {ℓ} : {A : Type ℓ} → PaginationParams → List A → PaginatedResult A
paginate params rows =
    let total = length rows in
    record {
      items = take params.limit (drop (skip_of params) rows);
      pagination = record {
        page = params.page;
        limit = params.limit;
        total = total;
        total_pages = ceil_div total params.limit;
        has_next_page = ltb (params.page * params.limit) total;
        has_prev_page = ltb 1 params.page;
      };
    }

-- A filter of the query that is not given passes every row.
abbrev pub matches {ℓ} : {A : Type ℓ} ⦃tests : Eq A⦄ → Option A → A → Bool
matches none a = true
matches (some wanted) a = a == wanted
