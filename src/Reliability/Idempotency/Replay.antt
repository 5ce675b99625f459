-- ===== src/Reliability/Idempotency/Replay.antt =====
-- What a client that repeats a request gets.
use mathlib.Core.Path.{subst}
use res_q_server.Common.{
  ℕ, ◌+◌, ◌*◌, ◌≤◌, ◌≡◌, ◌≢◌, true, arith, none, some, List, conflict, Text, [], refl, ◌∷◌,
  Option-cases, inl, inr, nat_eq, text_eq, ◌==◌, codes, Error, ap, sym, to_upper, ◌∙◌,
}
use res_q_server.Reliability.Idempotency.{
  Gate, IdempotencyKey, Response, check_key, delete_key, find_key, is_success, judge, serve, answer,
  insert_key, keep_response, Answer, key_row, persist, Request, build_request_hash,
}
use res_q_server.Db.Rows.{
  assignment_status_eq, incident_status_eq, resource_status_eq, role_eq, hospital_status_eq,
  level_eq, user_status_eq,
}
use res_q_server.Db.Tables.{
  assignment_row, incident_row, outbox_row, resource_row, user_row, hospital_row,
}

delete_key-find_key :
    (k : Text) (keys : List IdempotencyKey) → find_key k (delete_key k keys) ≡ none
unfolding find_key delete_key
delete_key-find_key k [] = refl
delete_key-find_key k (x ∷ xs) = ground (arith, delete_key-find_key k xs)

-- A request goes through only where the table, as it is then, has no row with its key.
proceed-find_key :
    (now : ℕ) (key : Text) (hash : ℕ) (keys : List IdempotencyKey)
    → (check_key now (some key) hash keys).0 ≡ Gate.proceed
    → find_key key (check_key now (some key) hash keys).1 ≡ none
unfolding check_key judge
proceed-find_key now key hash keys e = elim (Option-cases (find_key key keys)) [
  | inl fresh ↦ ground (arith, fresh)
  | inr (x, found) ↦ ground (arith, found, delete_key-find_key key keys)
]

check_key-fresh :
    (now : ℕ) (key : Text) (hash : ℕ) (keys : List IdempotencyKey)
    → find_key key keys ≡ none
    → check_key now (some key) hash keys ≡ (Gate.proceed, keys)
unfolding check_key judge
check_key-fresh now key hash keys fresh = ground (arith, fresh)

persist-stored :
    (ttl_seconds now : ℕ) (key : Text) (hash : ℕ) (response : Response) (keys : List IdempotencyKey)
    → find_key key keys ≡ none
    → persist none (some (key_row ttl_seconds now key hash response)) keys
      ≡ key_row ttl_seconds now key hash response ∷ keys
unfolding persist insert_key
persist-stored ttl_seconds now key hash response keys fresh = ground (arith, fresh)

keep_response-success :
    (ttl_seconds now : ℕ) (key : Text) (hash : ℕ) (response : Response)
    → is_success response.status ≡ true
    → keep_response ttl_seconds now (some key) hash response
      ≡ some (key_row ttl_seconds now key hash response)
unfolding keep_response
keep_response-success ttl_seconds now key hash response success = rw success refl

abbrev refused : Response
refused = record { status = conflict; body = codes "IDEMPOTENCY_KEY_REUSE_CONFLICT" }

module _ {S : Type 0} (ttl_seconds : ℕ) where
  -- What a request leaves that its handler answers.
  abbrev handled : (now : ℕ) → Text → (hash : ℕ) → Response × S → List IdempotencyKey → Answer S
  handled now key hash done keys = record {
    response = done.0;
    state = done.1;
    keys = keys;
    pending = keep_response ttl_seconds now (some key) hash done.0;
  }

  answer-proceed :
      (now : ℕ) (key : Text) (hash : ℕ) (handler : S → Response × S) (s : S)
      (g : Gate × List IdempotencyKey)
      → g.0 ≡ Gate.proceed
      → answer ttl_seconds now (some key) hash handler s g ≡ handled now key hash (handler s) g.1
  unfolding answer
  answer-proceed now key hash handler s (Gate.proceed, keys) e = refl
  answer-proceed now key hash handler s (Gate.reuse_conflict, keys) e = absurd cc
  answer-proceed now key hash handler s (Gate.replay r, keys) e = absurd cc

  -- A request that finds its key, with its hash and in time, gets the stored response.
  abbrev replayed : Response → S → List IdempotencyKey → Answer S
  replayed response s keys = record { response = response; state = s; keys = keys; pending = none }

  repeats :
      (since now : ℕ) (key : Text) (hash other : ℕ) (response : Response)
      (handler : S → Response × S) (s : S) (keys : List IdempotencyKey)
      → now ≤ since + ttl_seconds * 1000
      → other ≢ hash
      → let table = key_row ttl_seconds since key hash response ∷ keys in
        (serve ttl_seconds now (some key) hash handler s table ≡ replayed response s table)
        × (serve ttl_seconds now (some key) other handler s table
            ≡ replayed
                (record { status = conflict; body = codes "IDEMPOTENCY_KEY_REUSE_CONFLICT" })
                s
                table)
  unfolding serve check_key judge find_key answer
  repeats since now key hash other response handler s keys timely differs =
      let same : (key == key) ≡ true = (text_eq.equals_iff key key).1 refl in
      (ground (arith, same, timely), ground (arith, same, timely, differs))

  serve-handled :
      (now : ℕ) (key : Text) (hash : ℕ) (handler : S → Response × S) (s : S)
      (keys : List IdempotencyKey)
      → (check_key now (some key) hash keys).0 ≡ Gate.proceed
      → serve ttl_seconds now (some key) hash handler s keys
        ≡ handled now key hash (handler s) (check_key now (some key) hash keys).1
  unfolding serve
  serve-handled now key hash handler s keys proceeds =
      answer-proceed now key hash handler s (check_key now (some key) hash keys) proceeds

  -- What the hash `hash` and another hash get at `later`, before and after the pending INSERT of
  -- `done` on the table `met`.
  abbrev pub IsReplayed :
      (later : ℕ)
      → Text
      → (hash other : ℕ) → (handler : Response × S) (again : S → Response × S) → S
      → (met : List IdempotencyKey) → Answer S
      → Type 0
  IsReplayed later key hash other handler again t met done =
      let table = persist none done.pending met in
      (done.response ≡ handler.0)
      × (done.state ≡ handler.1)
      × ((serve ttl_seconds later (some key) hash again t done.keys).state ≡ (again t).1)
      × ((e : Error) → persist (some e) done.pending met ≡ met)
      × (serve ttl_seconds later (some key) hash again t table ≡ replayed handler.0 t table)
      × (serve ttl_seconds later (some key) other again t table ≡ replayed refused t table)

  stored-IsReplayed :
      (now later : ℕ) (key : Text) (hash other : ℕ) (handler : Response × S)
      (again : S → Response × S) (t : S) (keys met : List IdempotencyKey)
      → find_key key keys ≡ none
      → later ≤ now + ttl_seconds * 1000
      → other ≢ hash
      → find_key key met ≡ none
      → IsReplayed later key hash other handler again t met (record {
        response = handler.0;
        state = handler.1;
        keys = keys;
        pending = some (key_row ttl_seconds now key hash handler.0);
      })
  unfolding persist insert_key
  stored-IsReplayed now later key hash other handler again t keys met unseen timely differs fresh =
      let fresh_check = check_key-fresh later key hash keys unseen in
      let table = persist-stored ttl_seconds now key hash handler.0 met fresh in
      let (same, conflicting) =
        repeats now later key hash other handler.0 again t met timely differs in
      (
        refl,
        refl,
        ap (λ (a : Answer S). a.state)
            (serve-handled later key hash again t keys (ap (λ g. g.0) fresh_check)),
        λ e. refl,
        subst
            (λ keys'.
              serve ttl_seconds later (some key) hash again t keys' ≡ replayed handler.0 t keys')
            (sym table) same,
        subst
            (λ keys'.
              serve ttl_seconds later (some key) other again t keys' ≡ replayed refused t keys')
            (sym table) conflicting,
      )

  served-IsReplayed :
      (now later : ℕ) (key : Text) (hash other : ℕ) (handler again : S → Response × S) (s t : S)
      (keys met : List IdempotencyKey)
      → (check_key now (some key) hash keys).0 ≡ Gate.proceed
      → is_success (handler s).0.status ≡ true
      → later ≤ now + ttl_seconds * 1000
      → other ≢ hash
      → find_key key met ≡ none
      → IsReplayed later key hash other
          (handler s)
          again
          t
          met
          (serve ttl_seconds now (some key) hash handler s keys)
  served-IsReplayed now later key hash other handler again s t keys met proceeds success timely
        differs fresh =
      let kept = keep_response-success ttl_seconds now key hash (handler s).0 success in
      let g = check_key now (some key) hash keys in
      let done : serve ttl_seconds now (some key) hash handler s keys ≡ record {
        response = (handler s).0;
        state = (handler s).1;
        keys = g.1;
        pending = some (key_row ttl_seconds now key hash (handler s).0);
      } =
        serve-handled now key hash handler s keys proceeds
        ∙ ap
            (λ p. record {
              response = (handler s).0;
              state = (handler s).1;
              keys = g.1;
              pending = p;
            })
            kept in
      subst (IsReplayed later key hash other (handler s) again t met) (sym done) (
        stored-IsReplayed now later key hash other (handler s) again t g.1 met
          (proceed-find_key now key hash keys proceeds) timely differs fresh)

  -- A request with a key that reaches the handler gets the handler's response. If that is a 2xx
  -- response, an INSERT of a row for the key is left pending. As long as it has not been made, a
  -- request with the same key runs its handler too, and an INSERT that fails changes nothing:
  -- Requirement 3.3 of reliability-production-readiness has the row stored before the answer. Once
  -- it has been made, on whatever table without the key it meets, and until the key expires, a
  -- request with the same key, method, path and body, whoever sends it, gets the first response,
  -- and one with the same key and another hash gets 409; neither runs its handler or changes the
  -- table of keys.
  pub serve-replays :
      (sha256 : Text → ℕ) (json : Text → Text → Text → Text) (now later : ℕ) (key : Text)
      (first same other : Request) (handler again : S → Response × S) (s t : S)
      (keys met : List IdempotencyKey)
      → let hash = build_request_hash sha256 json in
        (check_key now (some key) (hash first) keys).0 ≡ Gate.proceed
        → is_success (handler s).0.status ≡ true
        → later ≤ now + ttl_seconds * 1000
        → same.method ≡ first.method
        → same.path ≡ first.path
        → same.body ≡ first.body
        → build_request_hash sha256 json other ≢ build_request_hash sha256 json first
        → find_key key met ≡ none
        → let hash = build_request_hash sha256 json in
          (hash same ≡ hash first)
          × IsReplayed later key
              (hash same)
              (hash other)
              (handler s)
              again
              t
              met
              (serve ttl_seconds now (some key) (hash first) handler s keys)
  serve-replays sha256 json now later key first same other handler again s t keys met proceeds
        success timely method path body differs fresh =
      let hash : build_request_hash sha256 json same ≡ build_request_hash sha256 json first =
        λ j. sha256 (json (to_upper (method j)) (path j) (body j)) in
      (
        hash,
        subst
            (λ h.
              IsReplayed later key h (build_request_hash sha256 json other) (handler s) again t met
                (serve ttl_seconds now (some key) (build_request_hash sha256 json first) handler s
                  keys))
            (sym hash)
            (served-IsReplayed now later key (build_request_hash sha256 json first)
              (build_request_hash sha256 json other) handler again s t keys met proceeds success
              timely differs fresh),
      )
