-- ===== src/Errors.antt =====
-- The Go errors of the packages internal/stellar and internal/probe, a constructor for each message.
-- `external` is an error of a library or of the RPC endpoint, `canceled` one of the context.
use soroprobe.Prelude.{ℕ, Text}
use soroprobe.Prelude.Int.{ℤ}
use soroprobe.Scval.Literal.{LiteralError}
use soroprobe.Scval.Decode.{DecodeError}

pub data Error : Type 0 where
  external canceled : Text → Error
  literal : LiteralError → Error
  decoding : DecodeError → Error
  -- internal/stellar
  invalid_contract_id : Text → Text → Error
  contract_id_length : Text → ℕ → Error
  encode_ledger_key decode_entry_data : Text → Error
  source_required : Error
  build_transaction : Text → Error
  -- internal/probe
  not_contract_data not_an_instance : Error
  extension_failed : Text → Error
  no_transaction_data : Error
  decode_transaction_data : Text → Error
  stop no_simulation_result : Error
  function_required : Error
  no_checks : Error
  too_many_checks : ℕ → Error
  no_contract_id : ℕ → Error
  bad_timeout : Text → Text → Error
  negative_timeout : Text → ℤ → Error
  unknown_durability : Text → Text → Error
  same_name : ℕ → ℕ → Text → Error
  negative_concurrency : Error
  not_prefetched : Text → Error
  rpc_unreachable_health rpc_unreachable_network : Error → Error
  rpc_unhealthy : Text → Error
  wrong_network : Text → Text → Error
