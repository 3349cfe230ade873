-- ===== src/Probe/Batch/Prefetched.antt =====
-- internal/probe/batch.go: CheckBatch, for a batch whose entries are all read before its checks run.
-- Running checks concurrently is a parameter, as is `Prober.Simulate`.
pub mod Items
pub mod Accepted
use soroprobe.Prelude.{
  ℕ, Bool, true, false, not, ◌&&◌, ◌||◌, Option, none, some, List, [], ◌∷◌, ◌++◌, if◌then◌else◌,
  Result, ok, err, Text, is_empty, text_eq,
}
use soroprobe.Prelude.Int.{ℤ, pos, ltb_ℤ}
use soroprobe.Prelude.Dict.{Dict, lookup, insert}
use soroprobe.Errors.{Error, negative_concurrency}
use soroprobe.Stellar.{Client, code_key, encode_key}
use soroprobe.Probe.Exec.{Exec, pure, raise, lift, continue, ◌>>=◌}
use soroprobe.Probe.Prober.{Prober, Session}
use soroprobe.Probe.Plan.{Plan, plan_inspect}
use soroprobe.Probe.Inspect.{InstanceInfo, read_instance_entry}
use soroprobe.Probe.Check.{SimulateRequest, SimulateResult, CheckRequest, CheckResult}
use soroprobe.Probe.Check.Expect.{check, inspect_request}
use soroprobe.Probe.Batch.{
  NamedCheck, BatchRequest, BatchItem, BatchResult, check_name, validate_batch,
}
use soroprobe.Probe.Batch.Fetch.{Fetched, fetch_batch_entries, cached_client}

-- batchCheckState: a plan or the error of planning it, and the key of the code entry
pub record CheckState : Type 0 where
  pub plan : Result Error Plan
  pub code_key : Text

unfoldable pub is_member : Text → List Text → Bool
is_member k [] = false
is_member k (j ∷ js) = text_eq j k || is_member k js

-- the keys that are not seen yet, each once
unfoldable pub add_unseen : List Text → List Text → List Text
add_unseen [] keys = keys
add_unseen (k ∷ ks) keys = add_unseen ks (if is_member k keys then keys else keys ++ (k ∷ []))

unfoldable pub plan_keys : Result Error Plan → List Text
plan_keys (ok plan) = plan.keys
plan_keys (err e) = []

-- initialKeys
unfoldable pub initial_keys : List Text → List CheckState → List Text
initial_keys keys [] = keys
initial_keys keys (s ∷ ss) = initial_keys (add_unseen (plan_keys s.plan) keys) ss

unfoldable pub first_error : Dict Error → List Text → Option Error
first_error errors [] = none
first_error errors (k ∷ ks) = elim (lookup k errors) [
  | some e ↦ some e
  | none ↦ first_error errors ks
]

-- codeKeys
unfoldable pub code_keys : List Text → List CheckState → List Text
code_keys keys [] = keys
code_keys keys (s ∷ ss) =
    code_keys (if is_empty s.code_key then keys else add_unseen (s.code_key ∷ []) keys) ss

unfoldable pub put_all : {V : Type 0} → Dict V → Dict V → Dict V
put_all [] old = old
put_all ((k, v) ∷ m) old = insert k v (put_all m old)

unfoldable pub merge : Fetched → Fetched → Fetched
merge initial code = record {
  entries = put_all code.entries initial.entries;
  latest = put_all code.latest initial.latest;
  errors = put_all code.errors initial.errors;
}

abbrev pub is_ok : {E A : Type 0} → Result E A → Bool
is_ok (ok a) = true
is_ok (err e) = false

unfoldable pub passed : Result Error CheckResult → Bool
passed (ok r) = r.all_ok
passed (err e) = false

-- one more item of the batch's result
unfoldable pub add_item : BatchResult → NamedCheck → Result Error CheckResult → BatchResult
add_item out c r = record {
  all_ok = if passed r then out.all_ok else false;
  errored = if is_ok r then out.errored else true;
  items =
      out.items
      ++ ((record { name = check_name c; contract_id = c.request.contract_id; result = r }) ∷ []);
}

abbrev pub no_items : BatchResult
no_items = record { all_ok = true; errored = false; items = [] }

unfoldable pub some_timeout : List NamedCheck → Bool
some_timeout [] = false
some_timeout (c ∷ cs) = not (is_empty c.timeout) || some_timeout cs

module _ {W : Type 0} (p : Prober W) where
  abbrev pub go_on : {A : Type 0} → Option Error → Exec (Session W) A → Exec (Session W) A
  go_on none next s = next s
  go_on (some e) next s = (err e, s)

  -- ctx.Err() as a guard
  unfoldable pub unless_canceled : {A : Type 0} → Exec (Session W) A → Exec (Session W) A
  unless_canceled next s =
      let (e, w) = p.client.ctx_err s.world in go_on e next (record s { world = w })

  -- the first loop: a plan for each check
  unfoldable pub plan_checks : List NamedCheck → Exec (Session W) (List CheckState)
  plan_checks [] = pure []
  plan_checks (c ∷ cs) = unless_canceled do
    states ← plan_checks cs
    pure ((record { plan = plan_inspect p (inspect_request p c.request); code_key = [] }) ∷ states)

  abbrev pub failed : Error → CheckState
  failed e = record { plan = err e; code_key = [] }

  abbrev pub with_code : CheckState → Result Error Text → CheckState
  with_code s (ok key) = record s { code_key = key }
  with_code s (err e) = failed e

  abbrev pub with_hash : CheckState → Option Text → CheckState
  with_hash s none = s
  with_hash s (some hash) = with_code s (encode_key p.sdk (code_key hash))

  abbrev pub with_instance : CheckState → Result Error InstanceInfo → CheckState
  with_instance s (ok info) = with_hash s info.hash
  with_instance s (err e) = failed e

  -- the body of the second loop, for a check with a plan
  unfoldable pub code_state : Fetched → CheckState → Plan → CheckState
  code_state initial s plan = elim (first_error initial.errors plan.keys) [
    | some e ↦ failed e
    | none ↦ elim (lookup plan.instance_key initial.entries) [
      | none ↦ s
      | some entry ↦ with_instance s (read_instance_entry p entry)
    ]
  ]

  unfoldable pub code_states : Fetched → List CheckState → List CheckState
  code_states initial [] = []
  code_states initial (s ∷ ss) =
      (elim s.plan [ ok plan ↦ code_state initial s plan | err e ↦ s ]) ∷ code_states initial ss

  unfoldable pub fetch : List Text → Exec (Session W) Fetched
  fetch keys s =
      let (f, w) = fetch_batch_entries p.client keys s.world in (ok f, record s { world = w })

  -- batchedProber
  unfoldable pub batched : Fetched → Prober W
  batched f = record p { client = cached_client p.client f }

  module _ (simulate : Prober W → SimulateRequest → Exec (Session W) SimulateResult) where
    abbrev pub Attempt : Type 0
    Attempt = Session W → Result Error CheckResult × Session W

    -- the check of one item, unless an error is known; the error becomes a value
    unfoldable pub run_state : Fetched → NamedCheck → CheckState → Attempt
    run_state f c st s = elim st.plan [
      | err e ↦ (err e, s)
      | ok plan ↦
          elim (first_error f.errors (if is_empty st.code_key then [] else st.code_key ∷ [])) [
            | some e ↦ (err e, s)
            | none ↦ check (batched f) (simulate (batched f)) c.request s
          ]
    ]

    -- the last loop
    unfoldable pub run_items :
        Fetched → BatchResult → List NamedCheck → List CheckState → Exec (Session W) BatchResult
    run_items f out (c ∷ cs) (st ∷ sts) =
        unless_canceled
          (λ s. let (r, s') = run_state f c st s in run_items f (add_item out c r) cs sts s')
    run_items f out _ _ = pure out

    -- checkBatchPrefetched
    unfoldable pub check_batch_prefetched : BatchRequest → Exec (Session W) BatchResult
    check_batch_prefetched req = do
      planned ← plan_checks req.checks
      initial ← fetch (initial_keys [] planned)
      let states = code_states initial planned
      code ← fetch (code_keys [] states)
      run_items (merge initial code) no_items req.checks states

    module _ (parse_duration : Text → Result Text ℤ)
        (check_batch_concurrent : BatchRequest → Exec (Session W) BatchResult) where
      unfoldable pub check_valid_batch : BatchRequest → Exec (Session W) BatchResult
      check_valid_batch req =
          if ltb_ℤ req.concurrency (pos 0)
          then raise negative_concurrency
          else if ltb_ℤ (pos 1) req.concurrency || some_timeout req.checks
          then check_batch_concurrent req
          else check_batch_prefetched req

      unfoldable pub check_if_valid : Option Error → BatchRequest → Exec (Session W) BatchResult
      check_if_valid (some e) req = raise e
      check_if_valid none req = check_valid_batch req

      -- CheckBatch
      unfoldable pub check_batch : BatchRequest → Exec (Session W) BatchResult
      check_batch req = check_if_valid (validate_batch parse_duration req) req
