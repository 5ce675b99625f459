-- ===== src/Tests/Caching.antt =====
-- The cached reads and writes of a district with one hospital, and a Redis that keeps one entry.
use res_q_server.Common.{
  Option, Bool, none, some, Bool-cases, [], arith, false, if◌then◌else◌, inl, inr, nat_beq, refl,
  true, ◌∷◌, ◌≡◌, nat_eq, ok, text_eq,
}
use res_q_server.Caching.Runs.{ServiceRun, ServiceStep}
use res_q_server.Tests.Fixtures.{
  district, deployed, dispatch, dispatched, supply, truck, admin, clinic, three_left, town,
}
use res_q_server.Caching.Entries.{Answers, Gives, KeepsEntries}
use res_q_server.Caching.{CacheKey, Cached, Pattern, Redis, is_match, Availability, RequestId}
use res_q_server.Db.Rows.{
  Db, ResourceStatus, assignment_status_eq, hospital_status_eq, incident_status_eq, level_eq,
  resource_status_eq, role_eq, user_status_eq,
}
use res_q_server.Audit.{given}
use res_q_server.Caching.Stale.{create_tx-stale}
use res_q_server.Resource.Reads.{get_resource_by_id, load_resource}
use res_q_server.Caching.Transparent.{run-cached_read}
use res_q_server.Caching.Fresh.{IsFresh, Read, cached_read, direct_read}
use res_q_server.Assignment.Defs.{create_tx, set_resource_status}
use res_q_server.Decision.Matching.{is_type_match}
use res_q_server.Hospital.Service.{get_hospital_by_id, update_hospital, to_availability}
use res_q_server.Db.Tables.{
  assignment_row, find_unique, hospital_row, incident_row, outbox_row, resource_row, set_row,
  user_row,
}

-- Which entries are kept, and found again.
unfoldable same_key : CacheKey → CacheKey → Bool
same_key (CacheKey.hospital_by_id i) (CacheKey.hospital_by_id j) = nat_beq i j
same_key (CacheKey.resource_by_id i) (CacheKey.resource_by_id j) = nat_beq i j
same_key (CacheKey.hospital_availability i) (CacheKey.hospital_availability j) = nat_beq i j
same_key _ _ = false

same_key_sound : (j k : CacheKey) → same_key j k ≡ true → k ≡ j
unfolding same_key
same_key_sound (CacheKey.hospital_by_id i) (CacheKey.hospital_by_id j) e = ground arith
same_key_sound (CacheKey.resource_by_id i) (CacheKey.resource_by_id j) e = ground arith
same_key_sound (CacheKey.hospital_availability i) (CacheKey.hospital_availability j) e =
    ground arith
same_key_sound j k e = ground arith

abbrev Slot : Type 0
Slot = Option (CacheKey × Cached)

unfoldable slot_get : CacheKey → Slot → Option Cached
slot_get k none = none
slot_get k (some (j, v)) = if same_key j k then some v else none

-- A store of one entry, which every deletion empties.
abbrev slot : Redis Slot
slot = record {
  get = λ k s. some (slot_get k s);
  set = λ k v ttl s. (true, some (k, v));
  del = λ keys s. (true, none);
  scan = λ pattern s. [];
}

slot_get-Gives : (k : CacheKey) (v : Cached) (s : Slot) → Gives slot s k v → slot_get k s ≡ some v
slot_get-Gives k v s given = cc

slot_set :
    (key k : CacheKey) (value v : Cached)
    → slot_get k (some (key, value)) ≡ some v
    → (k ≡ key) × (v ≡ value)
unfolding slot_get
slot_set key k value v e = elim (Bool-cases (same_key key k)) [
  | inl e' ↦ (same_key_sound key k e', ground arith)
  | inr e' ↦ absurd (ground arith)
]

no_listing : (pattern : Pattern) (j k : CacheKey) → is_match pattern k ≡ true → same_key j k ≡ false
unfolding same_key
no_listing pattern j k e = ground arith

unlisted :
    (pattern : Pattern) (k : CacheKey) (v : Cached) (s : Slot)
    → is_match pattern k ≡ true
    → slot_get k s ≡ some v
    → ⊥
unfolding slot_get
unlisted pattern k v none e h = ground arith
unlisted pattern k v (some (j, w)) e h = ground (arith, no_listing pattern j k e)

slot-KeepsEntries : KeepsEntries slot
unfolding slot_get
slot-KeepsEntries = record {
  set_gives = λ key k value v ttl s given.
      inl (slot_set key k value v (slot_get-Gives k v (some (key, value)) given));
  del_gives = λ keys k v s given. absurd (let e = slot_get-Gives k v none given in cc);
  del_removes = λ keys k v s replied listed given. let e = slot_get-Gives k v none given in cc;
  scan_finds = λ pattern k v s replied matched given.
      absurd (unlisted pattern k v s matched (slot_get-Gives k v s given));
}

slot-Answers : Answers slot
slot-Answers = record { del = λ keys s. refl; scan = λ pattern s. tt }

-- A read of the clinic by an operator, a write by an administrator.
abbrev filled : Slot
filled = some (CacheKey.hospital_by_id 50, Cached.hospital clinic)

abbrev updated : Db
updated = record town { hospitals = record clinic { available_beds = 3 } ∷ [] }

clinic_calls : ServiceRun slot town none updated none
unfolding get_hospital_by_id slot_get update_hospital find_unique set_row
clinic_calls =
    ServiceRun.next
      (ServiceRun.next ServiceRun.here (
        ServiceStep.reads true 60 town none (Read.hospital (RequestId.row_id 50)) {s' = filled}
          refl))
      (ServiceStep.updates_hospital town town filled 50 three_left admin refl)

none-IsFresh : IsFresh slot town none
unfolding slot_get
none-IsFresh = λ k v given. absurd (let e = slot_get-Gives k v none given in cc)

run-cached_read_example :
    (cached_read slot true 60 none updated none (Read.hospital (RequestId.row_id 50))).0
    ≡ direct_read updated (Read.hospital (RequestId.row_id 50))
run-cached_read_example =
    run-cached_read slot slot-KeepsEntries slot-Answers true 60
      (Read.hospital (RequestId.row_id 50)) tt clinic_calls none-IsFresh

-- createAssignment, with the truck in the cache.
abbrev truck_cached : Slot
truck_cached = some (CacheKey.resource_by_id 20, Cached.resource truck)

truck-Gives : Gives slot truck_cached (CacheKey.resource_by_id 20) (Cached.resource truck)
unfolding slot_get same_key
truck-Gives = refl

truck_found : find_unique 20 district.resources ≡ some truck
unfolding find_unique
truck_found = refl

create_deploys : create_tx district district supply dispatch ≡ ok (dispatched, deployed)
unfolding create_tx find_unique is_type_match set_row
create_deploys = refl

create_tx-stale_example :
    ((get_resource_by_id slot true 60 truck_cached deployed truck_cached (RequestId.row_id 20)).0
      ≡ ok (Cached.resource truck))
    × (ResourceStatus.available ≡ ResourceStatus.available)
    × (load_resource deployed 20
        ≡ ok (Cached.resource (set_resource_status ResourceStatus.busy truck)))
create_tx-stale_example =
    create_tx-stale slot 60 district supply dispatch dispatched truck truck_cached truck_found
      truck-Gives create_deploys

-- The availability of the clinic in the cache, asked for as the hospital `50:availability`.
abbrev clinic_beds : Availability
clinic_beds = to_availability clinic

abbrev beds_cached : Slot
beds_cached = some (CacheKey.hospital_availability 50, Cached.availability clinic_beds)
