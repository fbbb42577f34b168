-- ===== src/Http.antt =====
-- What a request ends in (the HttpException that the services of apps/api raise).
use ikg_studio_model_trainin.Common.{ℕ, String}

pub record ApiError : Type 0 where
  pub code : String
  pub status : ℕ

-- A value, or the exception that the HTTP layer reports.
pub data Result {ℓ} (A : Type ℓ) : Type ℓ where
  ok : A → Result A
  err : ApiError → Result A
