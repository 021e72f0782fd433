-- ===== src/Http.antt =====
-- What a Hertz handler does to its request context, as the list of the calls that it makes. The
-- framework (github.com/cloudwego/hertz) is not part of the repository; only the order and the
-- arguments of the calls are recorded.
pub mod Actions
use gateway_a.Prelude.{ℕ, ℤ, Text, Error, String, List}

pub data Field : Type 0 where
  text : Text → Field
  number : ℤ → Field
  texts : List Text → Field

pub data Action : Type 0 where
  -- ctx.Header(name, value)
  header : String → Text → Action
  -- ctx.JSON(status, body), of a map
  json : (status : ℕ) → List (String × Field) → Action
  -- ctx.Next(c)
  next : Action
  -- ctx.SetStatusCode, ctx.SetBodyString, ctx.Abort
  set_status : ℕ → Action
  set_body : Text → Action
  abort : Action
  -- a configured callback, given the error or the error-free context
  fallback : Error → Action
  custom_response : Action
