-- ===== src/Db/Tables.antt =====
-- The queries of the Prisma client on one table, and their laws.
use mathlib.Core.Option
use res_q_server.Common.{
  ℕ, ◌+◌, ◌≤◌, ◌≡◌, Bool, true, false, Option, none, some, List, [], ◌∷◌, arith, nat_beq,
  if◌then◌else◌, if-cases, All, count_if, Result, ok, err, row_not_found, nat_eq, text_eq,
}
use res_q_server.Db.Rows.{
  User, Hospital, Incident, Resource, Assignment, OutboxEvent, assignment_status_eq,
  hospital_status_eq, incident_status_eq, level_eq, resource_status_eq, role_eq, user_status_eq,
}

-- A row type with its primary key.
pub record Row {ℓ} (A : Type ℓ) : Type ℓ where
  pub key : A → ℕ

instance abbrev pub user_row : Row User
user_row = record { key = λ u. u.id }

instance abbrev pub hospital_row : Row Hospital
hospital_row = record { key = λ h. h.id }

instance abbrev pub incident_row : Row Incident
incident_row = record { key = λ i. i.id }

instance abbrev pub resource_row : Row Resource
resource_row = record { key = λ r. r.id }

instance abbrev pub assignment_row : Row Assignment
assignment_row = record { key = λ a. a.id }

instance abbrev pub outbox_row : Row OutboxEvent
outbox_row = record { key = λ e. e.event_id }

module _ {ℓ} {A : Type ℓ} ⦃row : Row A⦄ where
  -- findUnique({ where: { id } })
  unfoldable pub find_unique : ℕ → List A → Option A
  find_unique k [] = none
  find_unique k (a ∷ rows) = if nat_beq (row.key a) k then some a else find_unique k rows

  -- the rows after an update of the row with the key
  unfoldable pub set_row : ℕ → (A → A) → List A → List A
  set_row k f [] = []
  set_row k f (a ∷ rows) = (if nat_beq (row.key a) k then f a else a) ∷ set_row k f rows

  -- update({ where: { id } }): P2025 where no row has the key
  unfoldable pub update_row : ℕ → (A → A) → List A → Result (List A)
  update_row k f rows = elim (find_unique k rows) [
    | none ↦ err row_not_found
    | some _ ↦ ok (set_row k f rows)
  ]

  -- An update that succeeds has changed the row of the key.
  pub update_row-ok :
      (k : ℕ) (f : A → A) (rows : List A) {rows' : List A}
      → update_row k f rows ≡ ok rows'
      → rows' ≡ set_row k f rows
  unfolding update_row
  update_row-ok k f rows e = ground arith

  -- An update of a row that is there succeeds.
  pub update_row_listed :
      (k : ℕ) (f : A → A) (rows : List A) (a : A)
      → find_unique k rows ≡ some a
      → update_row k f rows ≡ ok (set_row k f rows)
  unfolding update_row
  update_row_listed k f rows a e = ground arith

  pub find_unique-key :
      (k : ℕ) (rows : List A) (a : A) → find_unique k rows ≡ some a → row.key a ≡ k
  unfolding find_unique
  find_unique-key k [] a e = ground arith
  find_unique-key k (x ∷ rows) a e = ground (arith, find_unique-key k rows a)

  -- An update that keeps the keys changes what is found under its own key only.
  pub find_unique-set_row :
      (k j : ℕ) (f : A → A) (rows : List A)
      → ((a : A) → row.key (f a) ≡ row.key a)
      → find_unique j (set_row k f rows)
        ≡ (if nat_beq k j then Option.map f (find_unique j rows) else find_unique j rows)
  unfolding find_unique set_row
  find_unique-set_row k j f [] keep = ground arith
  find_unique-set_row k j f (a ∷ rows) keep =
      ground (arith, keep a, find_unique-set_row k j f rows keep)

  -- An update that makes no row pass a test leaves at most rows many rows that pass it.
  pub count_if-set_row :
      (p : A → Bool) (k : ℕ) (f : A → A) (rows : List A)
      → ((a : A) → p (f a) ≡ false)
      → count_if p (set_row k f rows) ≤ count_if p rows
  unfolding set_row
  count_if-set_row p k f [] fails = omega arith
  count_if-set_row p k f (a ∷ rows) fails =
      ground (arith, fails a, count_if-set_row p k f rows fails)

  -- If the updated row passed the test, there is one less.
  pub count_if-set_row_found :
      (p : A → Bool) (k : ℕ) (f : A → A) (rows : List A) (a : A)
      → ((b : A) → p (f b) ≡ false)
      → find_unique k rows ≡ some a
      → p a ≡ true
      → count_if p (set_row k f rows) + 1 ≤ count_if p rows
  unfolding set_row find_unique
  count_if-set_row_found p k f [] a fails e h = ground arith
  count_if-set_row_found p k f (x ∷ rows) a fails e h =
      ground (
        arith,
        fails x,
        count_if-set_row p k f rows fails,
        count_if-set_row_found p k f rows a fails,
      )

  -- What an update keeps in each row, all rows keep.
  pub All-set_row :
      (P : A → Type 0) (k : ℕ) (f : A → A) (rows : List A)
      → ((a : A) → row.key a ≡ k → P a → P (f a))
      → All P rows
      → All P (set_row k f rows)
  unfolding set_row
  All-set_row P k f [] keep h = tt
  All-set_row P k f (a ∷ rows) keep h = (
    if-cases P (nat_beq (row.key a) k) (λ e. keep a (ground arith) h.0) (λ e. h.0),
    All-set_row P k f rows keep h.1,
  )

  -- The row of the key gets what the update gives it, and the others keep what they have.
  pub All-set_row_at :
      (P Q : A → Type 0) (k : ℕ) (f : A → A) (rows : List A)
      → ((a : A) → row.key a ≡ k → P a → Q (f a))
      → ((a : A) → P a → Q a)
      → All P rows
      → All Q (set_row k f rows)
  unfolding set_row
  All-set_row_at P Q k f [] changed kept h = tt
  All-set_row_at P Q k f (a ∷ rows) changed kept h = (
    if-cases Q (nat_beq (row.key a) k) (λ e. changed a (ground arith) h.0) (λ e. kept a h.0),
    All-set_row_at P Q k f rows changed kept h.1,
  )
