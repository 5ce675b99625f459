-- ===== src/Tests/Idempotency.antt =====
-- A client that repeats a request, in time, with another body, and before the first one is answered.
use res_q_server.Common.{some, refl, ◌≡◌, Text, [], arith, codes, ℕ, ◌+◌, ◌∷◌, none, ◌++◌}
use res_q_server.Reliability.Idempotency.Replay.{serve-replays, IsReplayed}
use res_q_server.Reliability.Idempotency.{
  Response, check_key, serve, Answer, Request, build_request_hash, find_key, persist,
}

-- A handler that creates one row, and numbers it.
abbrev creates : ℕ → Response × ℕ
creates rows = (record { status = 201; body = rows ∷ [] }, rows + 1)

abbrev client_key : Text
client_key = codes "key-1"

-- A hash for the tests, and the text that it is taken of.
abbrev weight : Text → ℕ
weight [] = 0
weight (c ∷ rest) = c + weight rest

abbrev json : Text → Text → Text → Text
json method path body = method ++ path ++ body

abbrev post : ℕ → Text → Request
post user_id body = record {
  user_id = user_id;
  method = codes "POST";
  path = codes "/";
  body = body;
}

-- The user 2 repeats the request of the user 1.
serve-replays_example :
    (build_request_hash weight json (post 2 (codes "a"))
      ≡ build_request_hash weight json (post 1 (codes "a")))
    × IsReplayed 60 60000 client_key
        (build_request_hash weight json (post 2 (codes "a")))
        (build_request_hash weight json (post 1 (codes "b")))
        (creates 5)
        creates
        6
        []
        (serve 60 0
          (some client_key)
          (build_request_hash weight json (post 1 (codes "a")))
          creates
          5
          [])
unfolding check_key find_key
serve-replays_example =
    serve-replays 60 weight json 0 60000 client_key (post 1 (codes "a")) (post 2 (codes "a"))
      (post 1 (codes "b")) creates creates 5 6 [] [] refl refl (omega arith) refl refl refl
      (omega arith) refl

-- After the key has expired the handler runs again.
abbrev first_answer : Answer ℕ
first_answer = serve 60 0 (some client_key) 7 creates 5 []

expires :
    (serve 60 60001 (some client_key) 7 creates 6 (persist none first_answer.pending [])).state ≡ 7
unfolding serve persist
expires = refl
