-- ===== src/Context.antt =====
-- context_manager.go, and the `Identity` of identity_handler.go. A UUID is the number that its 16
-- bytes stand for, so `uuid.Nil` is 0.
use ubirch_cose_client_go.Prelude.{ℕ, Bool, true, false, Option, Bytes}
use ubirch_cose_client_go.Errors.{Exec}

abbrev pub Uuid : Type 0
Uuid = ℕ

abbrev pub uuid_nil : Uuid
uuid_nil = 0

pub record Identity : Type 0 where
  pub uid : Uuid
  pub private_key : Bytes
  pub public_key : Bytes
  pub auth_token : Bytes

abbrev pub commit : Bool
commit = true

abbrev pub rollback : Bool
rollback = false

-- The interface `ContextManager`, over the state `W` of all that lies outside the process. A
-- `transactionCtx interface{}` is `some tx` for a transaction of the manager, and `none` for any
-- other value.
pub record ContextManager (W Tx : Type 0) : Type 0 where
  pub start_transaction : Exec W (Option Tx)
  pub close_transaction : Option Tx → Bool → Exec W (Unit {0})
  pub store_new_identity : Option Tx → Identity → Exec W (Unit {0})
  pub get_identity : Uuid → Exec W Identity
  pub get_uuid_for_public_key : Bytes → Exec W Uuid
  pub close : W → W
