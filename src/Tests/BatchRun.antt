-- ===== src/Tests/BatchRun.antt =====
-- A batch of one check on the small network.
use soroprobe.Probe.Batch.{
  BatchRequest, BatchResult, check_name, validate_batch, validate_from, validate_check,
  check_timeout, validate_durability, validate_name,
}
use soroprobe.Probe.Batch.Prefetched.Accepted.{IsAccepted, check_batch-IsAccepted}
use soroprobe.Probe.Exec.{Exec}
use soroprobe.Probe.Prober.{Session}
use soroprobe.Probe.Batch.Fetch.{
  set_each, add_entries, add_chunk, or_stop, fetch_chunk, fetch_from, fetch_batch_entries,
  cached_key, cached_from, cached_entries, cached_client,
}
use soroprobe.Probe.Batch.Prefetched.{
  is_member, add_unseen, plan_keys, initial_keys, first_error, code_keys, put_all, merge, passed,
  add_item, some_timeout, unless_canceled, plan_checks, code_state, code_states, fetch, batched,
  run_state, run_items, check_batch_prefetched, check_valid_batch, check_if_valid, check_batch,
}
use soroprobe.Tests.Probe.{the_answer}
use soroprobe.Prelude.Dict.{lookup, insert}
use soroprobe.Prelude.{Text, Result, err, none, text_eq, ◌≡◌, refl, true, false, [], ◌∷◌, ok, text}
use soroprobe.Prelude.Int.{ℤ, pos, wrap_int64, ◌*ℤ◌}
use soroprobe.Health.{
  describe, severity, is_ok, worst_from, worst, archivable, on_expiry, override_for, or_global,
  apply_override, resolve_thresholds, classify, effective_close_time, evaluate_with_close_time,
  evaluate, absent, humanize_duration, describe_at,
}
use soroprobe.Stellar.{
  parse_contract_id, code_key, data_key, encode_key, decode_entry, build_extend_footprint_tx,
}
use soroprobe.Probe.LedgerTime.{
  insert_ledger, sort_ledgers, average_of, measure, window_start, is_fresh, give_up, keep_measured,
  measure_close_time, close_time,
}
use soroprobe.Probe.Plan.{
  or_persistent, key_durability, encode_data_key, encode_data_keys, plan_inspect,
}
use soroprobe.Probe.Extend.{
  extension_fees, estimate_extend_fee, extend_note, estimate_by, estimate_targets, data_targets,
  extend_targets, estimate_extends,
}
use soroprobe.Probe.Inspect.{
  index_from, index_entries, worst_status, decode_storage, instance_of, instance_in,
  read_instance_entry, instance_report, data_report, code_report, inspect_code, inspect_code_of,
  missing_result, found_result, inspect_deployed, inspect_found, inspect_uncached,
}
use soroprobe.Probe.Prober.{thresholds_for}
use soroprobe.Probe.Cache.{inspect, inspect_with}
use soroprobe.Probe.Check.{
  ttl_outcome, ttl_check, deployed_step, instance_ttl_step, code_checks, code_ttl_step, data_checks,
  data_ttl_step, simulate_checks, simulate_step, after_step, run_steps, none_failed, check_result,
}
use soroprobe.Probe.Check.Expect.{
  type_of, eq_ℤ, compare_bytes, compare_others, compare_by, compare_sc_vals, to_option, matched,
  actual_value, expect_values, expect_encoded, expect_simulated, expect_check, expect_step,
  check_steps, concluded, conclude, gather_if, gather, check,
}
use soroprobe.Scval.Decode.{to_big_int}
use soroprobe.Scval.Words.{words_to_big_int}
use soroprobe.Tests.World.{World, failure, a_check, simulated, the_prober, the_session}

abbrev a_batch : BatchRequest
a_batch = record {
  checks = (record { name = []; timeout = []; request = a_check }) ∷ [];
  concurrency = pos 0;
}

abbrev the_outcome : BatchResult
the_outcome = record {
  all_ok = true;
  errored = false;
  items = (record { name = text "C1"; contract_id = text "C1"; result = ok the_answer }) ∷ [];
}

batch_checked :
    (check_batch_prefetched the_prober (λ p. simulated) a_batch the_session).0 ≡ ok the_outcome
unfolding or_persistent key_durability index_from index_entries worst_status decode_storage
    instance_of instance_in read_instance_entry encode_data_key encode_data_keys plan_inspect
    instance_report data_report code_report inspect_code inspect_code_of extension_fees
    estimate_extend_fee extend_note estimate_by estimate_targets data_targets extend_targets
    estimate_extends missing_result found_result inspect_deployed inspect_found inspect_uncached
    insert_ledger sort_ledgers average_of measure window_start is_fresh give_up keep_measured
    measure_close_time close_time parse_contract_id code_key data_key encode_key decode_entry
    build_extend_footprint_tx severity is_ok worst_from worst archivable on_expiry override_for
    or_global apply_override resolve_thresholds classify effective_close_time
    evaluate_with_close_time evaluate absent humanize_duration describe_at describe lookup insert
    text_eq wrap_int64 thresholds_for ◌*ℤ◌ inspect inspect_with to_big_int words_to_big_int
    ttl_outcome ttl_check deployed_step instance_ttl_step code_checks code_ttl_step data_checks
    data_ttl_step simulate_checks simulate_step after_step run_steps none_failed check_result
    type_of eq_ℤ compare_bytes compare_others compare_by compare_sc_vals to_option matched
    actual_value expect_values expect_encoded expect_simulated expect_check expect_step check_steps
    concluded conclude gather_if gather check check_name set_each add_entries add_chunk or_stop
    fetch_chunk fetch_from fetch_batch_entries cached_key cached_from cached_entries cached_client
    is_member add_unseen plan_keys initial_keys first_error code_keys put_all merge passed add_item
    some_timeout unless_canceled plan_checks code_state code_states fetch batched run_state
    run_items check_batch_prefetched check_valid_batch check_if_valid check_batch
batch_checked = refl

abbrev no_duration : Text → Result Text ℤ
no_duration s = err s

abbrev no_workers : BatchRequest → Exec (Session World) BatchResult
no_workers req s = (err failure, s)

a_batch_valid : validate_batch no_duration a_batch ≡ none
unfolding validate_batch validate_from validate_check check_timeout validate_durability
    validate_name lookup
a_batch_valid = refl

accepted :
    (check_batch the_prober (λ p. simulated) no_duration no_workers a_batch the_session).0
    ≡ ok the_outcome
unfolding check_batch check_if_valid check_valid_batch some_timeout
accepted = rw a_batch_valid batch_checked

check_batch-IsAccepted_example :
    (validate_batch no_duration a_batch ≡ none)
    × IsAccepted the_prober (λ p. simulated) no_duration no_workers a_batch the_outcome
check_batch-IsAccepted_example =
    check_batch-IsAccepted the_prober (λ p. simulated) no_duration no_workers a_batch the_session
      the_outcome accepted
