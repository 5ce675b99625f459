-- ===== src/Reoptimization/Handover.antt =====
-- The tables after a replacement.
use mathlib.Core.Option
use res_q_server.Common.{
  Option, ◌≡◌, ◌≢◌, ℕ, arith, ok, err, app, if◌then◌else◌, >>=-ok, Bool, List, nat_eq, refl, some,
  text_eq, ◌==◌, ◌∷◌, conflict,
}
use res_q_server.Reoptimization.Strategy.{ReoptimizeInput, Replacement}
use res_q_server.Db.Rows.{
  Assignment, AssignmentStatus, Db, Resource, ResourceStatus, assignment_status_eq,
  incident_status_eq, resource_status_eq, role_eq,
}
use res_q_server.Assignment.Defs.{Supply, insert_active, set_resource_status}
use res_q_server.Assignment.Release.{release}
use res_q_server.Reoptimization.Service.{
  check_replace, release_busy, replace_tx, replacement_assignment, write_replace, replaced_log,
}
use res_q_server.Reoptimization.Replacing.{write_replace-insert}
use res_q_server.Db.Tables.{
  assignment_row, find_unique, find_unique-set_row, incident_row, outbox_row, resource_row, set_row,
  update_row, user_row,
}

-- A BUSY resource becomes AVAILABLE; one that has FAILED or is otherwise out of service stays so.
abbrev pub freed : Resource → Resource
freed r =
    if r.status == ResourceStatus.busy then set_resource_status ResourceStatus.available r else r

abbrev pub when : {A : Type 0} → Bool → (A → A) → Option A → Option A
when b f x = if b then Option.map f x else x

release_busy-view :
    (id r : ℕ) (resources : List Resource)
    → find_unique r (release_busy id resources) ≡ when (id == r) freed (find_unique r resources)
unfolding release_busy
release_busy-view id r resources = ground (
  arith,
  find_unique-set_row id r (set_resource_status ResourceStatus.available) resources (λ x. refl),
)

-- What a replacement does to the tables: the previous assignment is CANCELLED and the new one is
-- ACTIVE; the new resource is BUSY and the previous one is freed; incidents and events stay.
pub record IsReplaced (supply : Supply) (input : ReoptimizeInput) (p : Replacement)
    (before after : Db) : Type 0 where
  pub assignments :
      (id : ℕ)
      → find_unique id after.assignments ≡ (
          if supply.assignment_id == id
          then some (replacement_assignment supply p)
          else when
              (input.assignment_id == id)
              (release AssignmentStatus.cancelled supply.now)
              (find_unique id before.assignments))
  pub resources :
      (id : ℕ)
      → find_unique id after.resources
        ≡ when
            (p.replacement.id == id)
            (set_resource_status ResourceStatus.busy)
            (when (p.previous.id == id) freed (find_unique id before.resources))
  pub incidents : after.incidents ≡ before.incidents
  pub events : after.outbox ≡ before.outbox
  pub logs : after.reoptimizations ≡ replaced_log input p ∷ before.reoptimizations

insert_active-ok :
    (a : Assignment) (rows rows' : List Assignment)
    → insert_active a rows ≡ ok rows'
    → rows' ≡ a ∷ rows
unfolding insert_active
insert_active-ok a rows rows' e = ground arith

write_replace-resources :
    (db db' : Db) (supply : Supply) (input : ReoptimizeInput) (p : Replacement) (a : Assignment)
    → write_replace db supply input p ≡ ok (a, db')
    → (db'.resources
        ≡ set_row p.replacement.id
            (set_resource_status ResourceStatus.busy)
            (release_busy p.previous.id db.resources))
      × (db'.incidents ≡ db.incidents)
      × (db'.outbox ≡ db.outbox)
      × (db'.reoptimizations ≡ replaced_log input p ∷ db.reoptimizations)
      × (a ≡ replacement_assignment supply p)
unfolding write_replace update_row
write_replace-resources db db' supply input p a e = ground arith

pub replace_tx-IsReplaced :
    (seen met db' : Db) (supply : Supply) (input : ReoptimizeInput) (p : Replacement)
    (a : Assignment)
    → replace_tx seen met supply input p ≡ ok (a, db')
    → (a ≡ replacement_assignment supply p) × IsReplaced supply input p met db'
unfolding replace_tx find_unique
replace_tx-IsReplaced seen met db' supply input p a e =
    let (checked, _, written) =
      >>=-ok (check_replace seen input.assignment_id p) (λ _. write_replace met supply input p) e in
    let (resources, incidents, outbox, logs, made) =
      write_replace-resources met db' supply input p a written in
    let cancelled =
      set_row input.assignment_id (release AssignmentStatus.cancelled supply.now) met.assignments in
    let inserted : db'.assignments ≡ replacement_assignment supply p ∷ cancelled =
      insert_active-ok (replacement_assignment supply p) cancelled db'.assignments
        (write_replace-insert met db' supply input p a written) in
    (
      made,
      record {
        assignments = λ id. rw inserted (
            ground (
              arith,
              find_unique-set_row input.assignment_id id
                  (release AssignmentStatus.cancelled supply.now) met.assignments (λ x. refl),
            ));
        resources = λ id. rw resources (
            ground (
              arith,
              find_unique-set_row p.replacement.id id (set_resource_status ResourceStatus.busy)
                  (release_busy p.previous.id met.resources) (λ x. refl),
              release_busy-view p.previous.id id met.resources,
            ));
        incidents = incidents;
        events = outbox;
        logs = logs;
      },
    )

-- Once the replacement of a listed assignment is committed, under a new id, a second replacement
-- of the same assignment that reads the new tables is refused with 409, whatever it would put in
-- its place and whatever tables its writes would meet.
pub replace_tx_once :
    (seen met db' later : Db) (supply supply' : Supply) (input input' : ReoptimizeInput)
    (p p' : Replacement) (a old : Assignment)
    → replace_tx seen met supply input p ≡ ok (a, db')
    → find_unique input.assignment_id met.assignments ≡ some old
    → supply.assignment_id ≢ input.assignment_id
    → input'.assignment_id ≡ input.assignment_id
    → replace_tx db' later supply' input' p' ≡ err (app conflict)
unfolding replace_tx check_replace
replace_tx_once seen met db' later supply supply' input input' p p' a old e found fresh same =
    let view =
      (replace_tx-IsReplaced seen met db' supply input p a e).1.assignments input.assignment_id in
    ground (arith, view, found, fresh, same)
