-- ===== src/Tests/Idempotency.antt =====
-- A request that starts a training job, sent twice.
use ikg_studio_model_trainin.Common.{ℕ, ◌+◌, ◌≤◌, ◌≡◌, refl, List, [], ◌∷◌, some, count, ◌==◌}
use ikg_studio_model_trainin.Json.{Json}
use ikg_studio_model_trainin.Http.{ApiError, Result, ok, err}
use ikg_studio_model_trainin.Idempotency.{
  Response, KeyRow, Request, or_200, key_conflict, reserve, intercept,
}
use ikg_studio_model_trainin.Idempotency.Laws.{intercept-again, intercept-conflict, intercept-error}
use ikg_studio_model_trainin.Idempotency.Runs.{Reaches, start, begun, turned_away, Reaches-once}

abbrev request : Request
request = record {
  key = some 5;
  user_id = some 1;
  method = "POST";
  operation_code = "POST /training-jobs";
  request_hash = 77;
}

abbrev response : Response
response = record { status = 201; body = Json.number 3 }

abbrev no_keys : List KeyRow
no_keys = []

-- The handler counts the jobs that it starts.
abbrev starts : ℕ → ℕ × Result Response
starts jobs = (jobs + 1, ok response)

abbrev too_many : ApiError
too_many = record { code = "TOO_MANY"; status = 400 }

abbrev fails : ℕ → ℕ × Result Response
fails jobs = (jobs, err too_many)

intercept-again_example :
    ((intercept starts 1000 request no_keys 0).1 ≡ ok response)
    × ((intercept starts 1000 request no_keys 0).0.1 ≡ 1)
    × (intercept starts 2000 request (intercept starts 1000 request no_keys 0).0.0 1 ≡ (
      ((intercept starts 1000 request no_keys 0).0.0, 1),
      ok (record response { status = or_200 (or_200 response.status) }),
    ))
intercept-again_example =
    intercept-again starts starts 1000 2000 request no_keys 0 1 5 1 response refl refl refl refl
      refl

abbrev other_request : Request
other_request = record request { request_hash = 78 }

intercept-conflict_example :
    intercept starts 2000 other_request (intercept starts 1000 request no_keys 0).0.0 1
    ≡ (((intercept starts 1000 request no_keys 0).0.0, 1), err key_conflict)
intercept-conflict_example =
    intercept-conflict starts starts 1000 2000 request other_request no_keys 0 1 5 1 1 response refl
      refl refl refl refl refl refl refl refl

intercept-error_example : intercept fails 1000 request no_keys 0 ≡ ((no_keys, 0), err too_many)
intercept-error_example =
    intercept-error fails 1000 request no_keys 0 0 5 1 too_many refl refl refl refl refl

-- The request runs, is sent again while it runs, and is answered.
run : Reaches (record {
  rows =
      (reserve 1001 5 1 "POST /training-jobs" 77
        (reserve 1000 5 1 "POST /training-jobs" 77 []).0).0;
  running = 5 ∷ [];
  answered = [];
})
unfolding reserve
run =
    turned_away 1001 5 1 "POST /training-jobs" 77
      (begun 1000 5 1 "POST /training-jobs" 77 start refl) (λ h. cc h)

Reaches-once_example : count (λ k. k == 5) (5 ∷ []) + count (λ k. k == 5) [] ≤ 1
Reaches-once_example =
    Reaches-once 5
      (record {
        rows =
            (reserve 1001 5 1 "POST /training-jobs" 77
              (reserve 1000 5 1 "POST /training-jobs" 77 []).0).0;
        running = 5 ∷ [];
        answered = [];
      })
      run
