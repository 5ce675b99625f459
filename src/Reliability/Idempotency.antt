-- ===== src/Reliability/Idempotency.antt =====
-- src/reliability/idempotency.ts: the middleware around one handler. A request is its trimmed
-- header, which is `none` where it is missing or blank, and the hash of its method, path and body;
-- SHA-256 is an argument. The handler is a function on a state `S`; `Date.now()` is an argument, in
-- milliseconds. The check, the handler with its answer, and the INSERT of the key, which nothing
-- awaits, are three steps, between which other requests may run.
pub mod Replay
use res_q_server.Common.{
  ℕ, ◌+◌, ◌*◌, Bool, true, false, not, ◌&&◌, Option, none, some, List, [], ◌∷◌, Text, if◌then◌else◌,
  ltb, leb, nat_beq, conflict, codes, nat_eq, text_eq, ◌==◌, count_if, filter, Error, to_upper,
}
use res_q_server.Db.Rows.{
  assignment_status_eq, incident_status_eq, resource_status_eq, role_eq, hospital_status_eq,
  level_eq, user_status_eq,
}
use res_q_server.Db.Tables.{
  assignment_row, incident_row, outbox_row, resource_row, user_row, hospital_row,
}

-- The model IdempotencyKey of prisma/schema.prisma.
pub record IdempotencyKey : Type 0 where
  pub key : Text
  pub request_hash : ℕ
  pub response_status : ℕ
  pub response_body : Text
  pub expires_at : ℕ

pub record Response : Type 0 where
  pub status : ℕ
  pub body : Text

-- What the middleware does with a request before the handler.
pub data Gate : Type 0 where
  proceed : Gate
  reuse_conflict : Gate
  replay : Response → Gate

-- findUnique and delete on the table of keys
unfoldable pub find_key : Text → List IdempotencyKey → Option IdempotencyKey
find_key k [] = none
find_key k (x ∷ xs) = if x.key == k then some x else find_key k xs

unfoldable pub delete_key : Text → List IdempotencyKey → List IdempotencyKey
delete_key k [] = []
delete_key k (x ∷ xs) = let rest = delete_key k xs in if x.key == k then rest else x ∷ rest

-- pruneExpiredIdempotencyKeys, with the number of rows that it deletes
unfoldable pub prune_expired_idempotency_keys :
    (now : ℕ) → List IdempotencyKey → ℕ × List IdempotencyKey
prune_expired_idempotency_keys now keys =
    let expired = λ (x : IdempotencyKey). ltb x.expires_at now in
    (count_if expired keys, filter (λ x. not (expired x)) keys)

unfoldable pub judge :
    (now : ℕ)
    → Text
    → (hash : ℕ) → Option IdempotencyKey
    → List IdempotencyKey
    → Gate × List IdempotencyKey
unfolding delete_key
judge now key hash none keys = (Gate.proceed, keys)
judge now key hash (some existing) keys =
    if ltb existing.expires_at now
    then (Gate.proceed, delete_key key keys)
    else if not (nat_beq existing.request_hash hash)
    then (Gate.reuse_conflict, keys)
    else (
      Gate.replay (record { status = existing.response_status; body = existing.response_body }),
      keys,
    )

-- The part before `next()`.
unfoldable pub check_key :
    (now : ℕ) → Option Text → (hash : ℕ) → List IdempotencyKey → Gate × List IdempotencyKey
unfolding judge find_key
check_key now none hash keys = (Gate.proceed, keys)
check_key now (some key) hash keys = judge now key hash (find_key key keys) keys

-- `capturedStatus >= 200 && capturedStatus < 300`
abbrev pub is_success : ℕ → Bool
is_success status = leb 200 status && ltb status 300

-- What of a request the middleware can see, and who sends it. The path is the router's, without the
-- prefix under which the router is mounted.
pub record Request : Type 0 where
  pub user_id : ℕ
  pub method : Text
  pub path : Text
  pub body : Text

-- buildRequestHash; `json` writes the object of the three fields.
abbrev pub build_request_hash : (sha256 : Text → ℕ) (json : Text → Text → Text → Text) → Request → ℕ
build_request_hash sha256 json request =
    sha256 (json (to_upper request.method) request.path request.body)

-- The INSERT of a key; a duplicate, and any other fault, is logged and dropped.
unfoldable pub insert_key :
    (fault : Option Error) → IdempotencyKey → List IdempotencyKey → List IdempotencyKey
unfolding find_key
insert_key (some e) new keys = keys
insert_key none new keys = elim (find_key new.key keys) [ some _ ↦ keys | none ↦ new ∷ keys ]

abbrev pub key_row : (ttl_seconds now : ℕ) → Text → (hash : ℕ) → Response → IdempotencyKey
key_row ttl_seconds now key hash response = record {
  key = key;
  request_hash = hash;
  response_status = response.status;
  response_body = response.body;
  expires_at = now + ttl_seconds * 1000;
}

-- The row whose INSERT the overridden `res.json` starts, at the time of the answer.
unfoldable pub keep_response :
    (ttl_seconds now : ℕ) → Option Text → (hash : ℕ) → Response → Option IdempotencyKey
keep_response ttl_seconds now none hash response = none
keep_response ttl_seconds now (some key) hash response =
    if is_success response.status then some (key_row ttl_seconds now key hash response) else none

-- That INSERT, on the table that it meets.
unfoldable pub persist :
    (fault : Option Error) → Option IdempotencyKey → List IdempotencyKey → List IdempotencyKey
unfolding insert_key
persist fault none keys = keys
persist fault (some row) keys = insert_key fault row keys

-- What the client gets, with the state, the keys, and the row that is still to be inserted.
pub record Answer (S : Type 0) : Type 0 where
  pub response : Response
  pub state : S
  pub keys : List IdempotencyKey
  pub pending : Option IdempotencyKey

module _ {S : Type 0} (ttl_seconds : ℕ) where
  unfoldable pub answer :
      (now : ℕ)
      → Option Text
      → (hash : ℕ) → (S → Response × S)
      → S
      → Gate × List IdempotencyKey
      → Answer S
  unfolding keep_response
  answer now key hash handler s (Gate.proceed, keys) =
      let (response, s') = handler s in
      record {
        response = response;
        state = s';
        keys = keys;
        pending = keep_response ttl_seconds now key hash response;
      }
  answer now key hash handler s (Gate.reuse_conflict, keys) = record {
    response = record { status = conflict; body = codes "IDEMPOTENCY_KEY_REUSE_CONFLICT" };
    state = s;
    keys = keys;
    pending = none;
  }
  answer now key hash handler s (Gate.replay response, keys) = record {
    response = response;
    state = s;
    keys = keys;
    pending = none;
  }

  -- A request that no other one interrupts before it is answered.
  unfoldable pub serve :
      (now : ℕ) → Option Text → (hash : ℕ) → (S → Response × S) → S → List IdempotencyKey → Answer S
  unfolding check_key answer
  serve now key hash handler s keys = answer now key hash handler s (check_key now key hash keys)
