-- ===== src/Probe/Simulate/Items.antt =====
-- The items of a simulated batch.
use mathlib.Core.List.{append-nil, append_assoc, map-append}
use soroprobe.Prelude.{
  ◌≡◌, ◌∙◌, refl, sym, ap, Option, none, some, List, [], ◌∷◌, ◌++◌, Text, Result, ok, err, map,
}
use soroprobe.Errors.{Error}
use soroprobe.Probe.Simulate.{SimulateError, plain, SimulateRequest, SimulateResult}
use soroprobe.Probe.Simulate.Run.{Simulator, simulate}
use soroprobe.Probe.Simulate.Batch.{
  batch_item, item_name, batch_call, Items, batch_from, simulate_batch,
}

abbrev Gives : {A : Type 0} → Result SimulateError A → A → Type 0
Gives r a = r ≡ ok a

ok-inj : {A : Type 0} {a b : A} → Gives (ok a) b → a ≡ b
ok-inj h = cc

err-ne-ok : {A : Type 0} {e : SimulateError} {a : A} → Gives (err e) a → ⊥
err-ne-ok h = cc

module _ {W : Type 0} (p : Simulator W) where
  abbrev Item : Type 0
  Item = Text × Result SimulateError SimulateResult

  abbrev pub names : List (Text × Result SimulateError SimulateResult) → List Text
  names items = map (λ (i : Text × Result SimulateError SimulateResult). i.0) items

  abbrev pub call_names : List (Text × SimulateRequest) → List Text
  call_names calls = map (λ (c : Text × SimulateRequest). item_name p c.0 c.1) calls

  item_or_error :
      (o : Option Error) (w : W) (name : Text) (e : SimulateError) (i : Item)
      → Gives
          (elim o as (λ x. Result SimulateError Item × W) [
            | some c ↦ (err (plain c), w)
            | none ↦ (ok (name, err e), w)
          ]).0
          i
      → i.0 ≡ name
  item_or_error none w name e i h = ap (λ (x : Item). x.0) (sym (ok-inj h))
  item_or_error (some c) w name e i h = absurd (err-ne-ok h)

  batch_item-name :
      (name : Text) (r : Result SimulateError SimulateResult × W) (i : Item)
      → Gives (batch_item p name r).0 i
      → i.0 ≡ name
  unfolding batch_item
  batch_item-name name (ok r, w) i h = ap (λ (x : Item). x.0) (sym (ok-inj h))
  batch_item-name name (err e, w) i h = item_or_error (p.ctx_err w).0 (p.ctx_err w).1 name e i h

  call_or_error :
      (o : Option Error) (w : W) (name : Text) (req : SimulateRequest) (i : Item)
      → Gives
          (elim o as (λ x. Result SimulateError Item × W) [
            | some c ↦ (err (plain c), w)
            | none ↦ batch_item p name (simulate p req w)
          ]).0
          i
      → i.0 ≡ name
  call_or_error none w name req i h = batch_item-name name (simulate p req w) i h
  call_or_error (some c) w name req i h = absurd (err-ne-ok h)

  batch_call-name :
      (c : Text × SimulateRequest) (w : W) (i : Item)
      → Gives (batch_call p c w).0 i
      → i.0 ≡ item_name p c.0 c.1
  unfolding batch_call
  batch_call-name (name, req) w i h =
      call_or_error (p.ctx_err w).0 (p.ctx_err w).1 (item_name p name req) req i h

  next_or_error :
      (r : Result SimulateError Item) (w : W) (cs : List (Text × SimulateRequest))
      (items out : Items p) (name : Text)
      → ((i : Item) → Gives r i → i.0 ≡ name)
      → ((is : Items p)
          → Gives (batch_from p cs is w).0 out
          → names out ≡ names is ++ call_names cs)
      → Gives
          (elim r as (λ x. Result SimulateError (Items p) × W) [
            | err e ↦ (err e, w)
            | ok item ↦ batch_from p cs (items ++ item ∷ []) w
          ]).0
          out
      → names out ≡ names items ++ name ∷ call_names cs
  next_or_error (err e) w cs items out name named rest h = absurd (err-ne-ok h)
  next_or_error (ok i) w cs items out name named rest h =
      rest (items ++ i ∷ []) h
      ∙ rw (map-append (λ (j : Item). j.0) items (i ∷ []), named i refl)
          (append_assoc (names items) (name ∷ []) (call_names cs))

  batch_from-names :
      (cs : List (Text × SimulateRequest)) (items out : Items p) (w : W)
      → Gives (batch_from p cs items w).0 out
      → names out ≡ names items ++ call_names cs
  unfolding batch_from
  batch_from-names [] items out w h =
      rw (append-nil (names items)) (ap (λ (is : Items p). names is) (sym (ok-inj h)))
  batch_from-names (c ∷ cs) items out w h =
      let (r, w') = batch_call p c w in
      next_or_error r w' cs items out (item_name p c.0 c.1) (batch_call-name c w)
        (λ is. batch_from-names cs is out w') h

  -- A batch of simulations that returns has an item for each call, in the order of the calls and under
  -- the call's name, or its contract where it has none.
  pub simulate_batch-names :
      (cs : List (Text × SimulateRequest)) (w : W) (out : Items p)
      → (simulate_batch p cs w).0 ≡ ok out
      → names out ≡ call_names cs
  unfolding simulate_batch
  simulate_batch-names [] w out h = absurd (err-ne-ok h)
  simulate_batch-names (c ∷ cs) w out h = batch_from-names (c ∷ cs) [] out w h
