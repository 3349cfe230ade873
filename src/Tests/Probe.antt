-- ===== src/Tests/Probe.antt =====
-- The probe's operations on the small network.
use soroprobe.Prelude.Dict.{lookup, insert}
use soroprobe.Prelude.{
  text_eq, ◌↔◌, ◌≡◌, refl, true, false, none, some, List, [], ◌∷◌, ok, err, text,
}
use soroprobe.Prelude.Int.{pos, negsuc, wrap_int32, wrap_int64, ◌*ℤ◌}
use soroprobe.Health.{
  live_for, in_hours, healthy, Durability, Ttl, describe, severity, is_ok, worst_from, worst,
  archivable, on_expiry, override_for, or_global, apply_override, resolve_thresholds, classify,
  effective_close_time, evaluate_with_close_time, evaluate, absent, humanize_duration, describe_at,
}
use soroprobe.Stellar.{
  parse_contract_id, code_key, data_key, encode_key, decode_entry, build_extend_footprint_tx,
}
use soroprobe.Probe.Report.{
  InspectResult, EntryReport, instance_kind, ExecutableName, no_storage, five_second_target,
  described,
}
use soroprobe.Probe.LedgerTime.{
  insert_ledger, sort_ledgers, average_of, measure, window_start, is_fresh, give_up, keep_measured,
  measure_close_time, close_time,
}
use soroprobe.Probe.Plan.{
  or_persistent, key_durability, encode_data_key, encode_data_keys, plan_inspect,
}
use soroprobe.Probe.Extend.{
  extension_fees, estimate_extend_fee, extend_note, estimate_by, estimate_targets, data_targets,
  extend_targets, estimate_extends,
}
use soroprobe.Probe.Inspect.{
  index_from, index_entries, worst_status, decode_storage, instance_of, instance_in,
  read_instance_entry, instance_report, data_report, code_report, inspect_code, inspect_code_of,
  missing_result, found_result, inspect_deployed, inspect_found, inspect_uncached,
}
use soroprobe.Probe.Inspect.Verdict.{IsReport, inspect_uncached-IsReport}
use soroprobe.Probe.Prober.{thresholds_for}
use soroprobe.Probe.Cache.{inspect, inspect_with}
use soroprobe.Probe.Check.{
  CheckResult, ttl_outcome, ttl_check, deployed_step, instance_ttl_step, code_checks, code_ttl_step,
  data_checks, data_ttl_step, simulate_checks, simulate_step, after_step, run_steps, none_failed,
  check_result, pass, instance_found, entry_summary, no_code_entry, skip, call_succeeded,
  expected_got, Check,
}
use soroprobe.Probe.Check.Expect.{
  type_of, eq_ℤ, compare_bytes, compare_others, compare_by, compare_sc_vals, to_option, matched,
  actual_value, expect_values, expect_encoded, expect_simulated, expect_check, expect_step,
  check_steps, concluded, conclude, gather_if, gather, check,
}
use soroprobe.Probe.Check.Answer.{Answered, check-verdict}
use soroprobe.Scval.Decode.{to_big_int}
use soroprobe.Scval.Words.{words_to_big_int}
use soroprobe.Prelude.Strings.{
  trim_space, trim_from, space_width, last_space_width, cut, contains_byte,
}
use soroprobe.Prelude.Strings.Digits.{set_string, parse_nat, all_digits, value_from}
use soroprobe.Scval.Words.{in_range}
use soroprobe.Scval.Literal.{parse_integer, parse_cut, parse_whole_number}
use soroprobe.Scval.Encode.Integers.{IntType, encoder}
use soroprobe.Scval.Encode.{encode_u64, encode_i32, check_range}
use soroprobe.Scval.Value.{ScVal}
use soroprobe.Stellar.{Client}
use soroprobe.Probe.Prober.{Prober}
use soroprobe.Probe.Check.Sound.{wanted}
use soroprobe.Probe.Check.Verdict.{Verdict, conclude-Verdict}
use soroprobe.Probe.Check.Compare.{compare-encoder}
use soroprobe.Probe.LedgerTime.Laws.{Positive, close_time-Positive}
use soroprobe.Probe.Ready.{ready}
use soroprobe.Probe.Ready.Answer.{ready_iff}
use soroprobe.Tests.World.{
  World, failure, the_client, the_sdk, a_check, a_simulation, simulated, the_prober, the_request,
  the_session,
}

abbrev pub the_ttl : Ttl
the_ttl = record {
  present = true;
  live_until_ledger = some 1_000;
  current_ledger = 100;
  ledgers_remaining = pos 900;
  estimated_time_left = pos 4_500_000_000_000;
  durability = Durability.persistent;
  status = healthy;
}

abbrev pub the_instance : EntryReport
the_instance = record {
  kind = instance_kind;
  key = [];
  ttl = the_ttl;
  summary = described (live_for (pos 900) (in_hours (pos 4_500_000_000_000)) 1_000);
  thresholds = record { warn = 50; crit = 10 };
}

abbrev pub the_report : InspectResult
the_report = record {
  contract_id = text "C1";
  deployed = true;
  executable = ExecutableName.stellar_asset;
  wasm_hash = [];
  instance_report = the_instance;
  code = none;
  data_reports = [];
  instance_storage = no_storage;
  extend_estimates = [];
  status = healthy;
  latest_ledger = 100;
  close_time_note = five_second_target;
}

inspected : (inspect_uncached the_prober the_request the_session).0 ≡ ok the_report
unfolding or_persistent key_durability index_from index_entries worst_status decode_storage
    instance_of instance_in read_instance_entry encode_data_key encode_data_keys plan_inspect
    instance_report data_report code_report inspect_code inspect_code_of extension_fees
    estimate_extend_fee extend_note estimate_by estimate_targets data_targets extend_targets
    estimate_extends missing_result found_result inspect_deployed inspect_found inspect_uncached
    insert_ledger sort_ledgers average_of measure window_start is_fresh give_up keep_measured
    measure_close_time close_time parse_contract_id code_key data_key encode_key decode_entry
    build_extend_footprint_tx severity is_ok worst_from worst archivable on_expiry override_for
    or_global apply_override resolve_thresholds classify effective_close_time
    evaluate_with_close_time evaluate absent humanize_duration describe_at describe lookup insert
    text_eq wrap_int64 thresholds_for ◌*ℤ◌
inspected = refl

inspect_uncached-IsReport_example : IsReport the_request the_report
inspect_uncached-IsReport_example =
    inspect_uncached-IsReport the_prober the_request the_session the_report inspected

abbrev pub the_checks : List Check
the_checks =
    (record {
      name = text "deployed";
      outcome = pass;
      detail = instance_found ExecutableName.stellar_asset;
    })
    ∷ (record {
      name = text "instance_ttl";
      outcome = pass;
      detail = entry_summary the_instance.summary;
    })
    ∷ (record { name = text "code_ttl"; outcome = skip; detail = no_code_entry })
    ∷ (record {
      name = text "simulate";
      outcome = pass;
      detail = call_succeeded (text "balance") 1 (pos 1);
    })
    ∷ (record { name = text "expect"; outcome = pass; detail = expected_got none none })
    ∷ []

abbrev pub the_answer : CheckResult
the_answer = record {
  contract_id = text "C1";
  all_ok = true;
  status = healthy;
  checks = the_checks;
  inspect_result = the_report;
  simulation = some a_simulation;
  latest_ledger = 100;
  close_time_note = five_second_target;
}

checked : (check the_prober simulated a_check the_session).0 ≡ ok the_answer
unfolding or_persistent key_durability index_from index_entries worst_status decode_storage
    instance_of instance_in read_instance_entry encode_data_key encode_data_keys plan_inspect
    instance_report data_report code_report inspect_code inspect_code_of extension_fees
    estimate_extend_fee extend_note estimate_by estimate_targets data_targets extend_targets
    estimate_extends missing_result found_result inspect_deployed inspect_found inspect_uncached
    insert_ledger sort_ledgers average_of measure window_start is_fresh give_up keep_measured
    measure_close_time close_time parse_contract_id code_key data_key encode_key decode_entry
    build_extend_footprint_tx severity is_ok worst_from worst archivable on_expiry override_for
    or_global apply_override resolve_thresholds classify effective_close_time
    evaluate_with_close_time evaluate absent humanize_duration describe_at describe lookup insert
    text_eq wrap_int64 thresholds_for ◌*ℤ◌ inspect inspect_with to_big_int words_to_big_int
    ttl_outcome ttl_check deployed_step instance_ttl_step code_checks code_ttl_step data_checks
    data_ttl_step simulate_checks simulate_step after_step run_steps none_failed check_result
    type_of eq_ℤ compare_bytes compare_others compare_by compare_sc_vals to_option matched
    actual_value expect_values expect_encoded expect_simulated expect_check expect_step check_steps
    concluded conclude gather_if gather check
checked = refl

check-verdict_example : Answered the_prober simulated a_check the_session the_answer
check-verdict_example = check-verdict the_prober simulated a_check the_session the_answer checked

conclude-Verdict_example :
    (c : CheckResult) × (conclude the_prober a_check the_report (some a_simulation) ≡ ok c)
    × Verdict the_prober a_check the_report (some a_simulation) c
unfolding wanted
conclude-Verdict_example = conclude-Verdict the_prober a_check the_report (some a_simulation) refl

abbrev pub deaf_client : Client World
deaf_client = record the_client { get_ledger_entries = λ keys w. (err failure, w) }

abbrev pub deaf_prober : Prober World
deaf_prober = record the_prober { client = deaf_client }

abbrev five : ScVal
five = ScVal.u64 (some 5)

abbrev minus_five : ScVal
minus_five = ScVal.i32 (some (negsuc 4))

five_encoded : encoder IntType.u64 (text "5") ≡ ok five
unfolding encode_u64 parse_integer trim_space trim_from space_width last_space_width parse_cut cut
    parse_whole_number contains_byte set_string parse_nat all_digits check_range in_range value_from
five_encoded = refl

minus_five_encoded : encoder IntType.i32 (text "-5") ≡ ok minus_five
unfolding encode_i32 parse_integer trim_space trim_from space_width last_space_width parse_cut cut
    parse_whole_number contains_byte set_string parse_nat all_digits check_range in_range value_from
    wrap_int32 wrap_int64
minus_five_encoded = refl

compare-encoder_example :
    (((compare_sc_vals the_sdk five minus_five).0 ≡ true)
      ↔ (parse_integer (text "5") ≡ parse_integer (text "-5")))
    × ((compare_sc_vals the_sdk five minus_five).1 ≡ false)
compare-encoder_example =
    compare-encoder the_sdk IntType.u64 IntType.i32 (text "5") (text "-5") five minus_five
      five_encoded minus_five_encoded

close_time-Positive_example : Positive the_prober (close_time the_prober the_session)
close_time-Positive_example = close_time-Positive the_prober the_session

ready_iff_example : ((ready the_client (text "public") tt).0 ≡ none) ↔ (
    ((the_client.get_health tt).0 ≡ ok (text "healthy"))
    × ((the_client.get_network tt).0 ≡ ok (text "public")))
ready_iff_example = ready_iff the_client (text "public") tt
