-- ===== src/Exceptions.antt =====
-- The exceptions of the request path, and what the client sees of them
-- (src/filters/tee-exception.filter.ts).
use zk_api.Common.{ℕ, String, ◌==◌, if◌then◌else◌}
use zk_api.Common.Text.{Text}

-- `SignedAccumulatorDto`: the next accumulator, in decimal, and the server's signature on it.
pub record Signature : Type 0 where
  pub r8x : Text
  pub r8y : Text
  pub s : Text

pub record SignedAccumulator : Type 0 where
  pub x : Text
  pub y : Text
  pub signature : Signature

-- An HttpException with its status and message; the BadGatewayException of a failed provider call,
-- whose body also holds the refund and the signed accumulator; and any other error.
pub data Exception : Type 0 where
  http : ℕ → String → Exception
  bad_gateway : String → Text → SignedAccumulator → Exception
  internal : String → Exception

-- The body that the filter sends.
pub record ErrorBody : Type 0 where
  pub status_code : ℕ
  pub message : String

abbrev pub status_of : Exception → ℕ
status_of (http status message) = status
status_of (bad_gateway message refund accumulator) = 502
status_of (internal message) = 500

-- `exception.message`, of an HttpException only.
abbrev pub message_of : Exception → String
message_of (http status message) = message
message_of (bad_gateway message refund accumulator) = message
message_of (internal message) = "Internal server error"

unfoldable pub catch : Exception → ErrorBody
catch exception = record {
  status_code = status_of exception;
  message = if status_of exception == 500 then "Internal server error" else message_of exception;
}
