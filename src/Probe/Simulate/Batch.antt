-- ===== src/Probe/Simulate/Batch.antt =====
-- internal/probe/simulate.go: SimulateBatch.
use soroprobe.Prelude.{
  ◌++◌, none, some, List, [], ◌∷◌, if◌then◌else◌, Text, is_empty, Result, ok, err,
}
use soroprobe.Probe.Simulate.{SimulateError, plain, empty_batch, SimulateRequest, SimulateResult}
use soroprobe.Probe.Simulate.Run.{Simulator, simulate}

module _ {W : Type 0} (p : Simulator W) where
  -- one call of SimulateBatch: its item, or the context's error
  unfoldable pub batch_item :
      Text
      → Result SimulateError SimulateResult × W
      → Result SimulateError (Text × Result SimulateError SimulateResult) × W
  batch_item name (ok r, w) = (ok (name, ok r), w)
  batch_item name (err e, w) =
      let (canceled, w') = p.ctx_err w in
      elim canceled [ some c ↦ (err (plain c), w') | none ↦ (ok (name, err e), w') ]

  unfoldable pub item_name : Text → SimulateRequest → Text
  item_name name req = if is_empty name then req.contract_id else name

  unfoldable pub batch_call :
      Text × SimulateRequest
      → W
      → Result SimulateError (Text × Result SimulateError SimulateResult) × W
  batch_call (name, req) w =
      let (canceled, w') = p.ctx_err w in
      elim canceled [
        | some c ↦ (err (plain c), w')
        | none ↦ batch_item (item_name name req) (simulate p req w')
      ]

  abbrev pub Items : Type 0
  Items = List (Text × Result SimulateError SimulateResult)

  -- the loop of SimulateBatch
  unfoldable pub batch_from :
      List (Text × SimulateRequest) → Items → W → Result SimulateError Items × W
  batch_from [] items w = (ok items, w)
  batch_from (c ∷ cs) items w =
      let (r, w') = batch_call c w in
      elim r [ err e ↦ (err e, w') | ok item ↦ batch_from cs (items ++ item ∷ []) w' ]

  -- SimulateBatch
  unfoldable pub simulate_batch : List (Text × SimulateRequest) → W → Result SimulateError Items × W
  simulate_batch [] w = (err empty_batch, w)
  simulate_batch (c ∷ cs) w = batch_from (c ∷ cs) [] w
