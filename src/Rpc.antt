-- ===== src/Rpc.antt =====
-- pkg/rabbitmq/rmq_rpc and pkg/nats/nats_rpc: remote calls over a broker.
pub mod Connection
pub mod Server
pub mod Client
pub mod Lifecycle
pub mod Setup
mod Tests
use thiam_api.Base.{ℕ, List, String}
use thiam_api.Errors.{Error, leaf}

-- errors.go of both packages: `ErrTimeout`, `ErrInternalServer`, `ErrBadHandler` and `Success`.
abbrev pub err_timeout : Error
err_timeout = leaf 20 "timeout"

abbrev pub err_internal_server : Error
err_internal_server = leaf 21 "internal server error"

abbrev pub err_bad_handler : Error
err_bad_handler = leaf 22 "unregistered handler"

abbrev pub success : String
success = "success"

-- A message that asks for a call, and the answer to it. A nil body is the empty one.
pub record Delivery : Type 0 where
  pub tag : ℕ
  pub handler : String
  pub reply_to : String
  pub correlation_id : String
  pub body : List ℕ

pub record Reply : Type 0 where
  pub to : String
  pub correlation_id : String
  pub status : String
  pub body : List ℕ
