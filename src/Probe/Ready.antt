-- ===== src/Probe/Ready.antt =====
-- internal/probe/ready.go: whether the RPC endpoint is ready to answer.
pub mod Answer
use soroprobe.Prelude.{Option, none, some, not, if◌then◌else◌, Result, ok, err, Text, text, text_eq}
use soroprobe.Errors.{
  Error, rpc_unreachable_health, rpc_unreachable_network, rpc_unhealthy, wrong_network,
}
use soroprobe.Stellar.{Client}

-- the tail of Ready, by the answer of getNetwork: the error, or none
unfoldable pub ready_network : Text → Result Error Text → Option Error
ready_network want (err e) = some (rpc_unreachable_network e)
ready_network want (ok passphrase) =
    if not (text_eq passphrase want) then some (wrong_network passphrase want) else none

module _ {W : Type 0} (client : Client W) where
  -- by the answer of getHealth; getNetwork is asked only of a healthy endpoint
  unfoldable pub ready_health : Text → Result Error Text → W → Option Error × W
  ready_health want (err e) w = (some (rpc_unreachable_health e), w)
  ready_health want (ok status) w =
      let (network, w') = client.get_network w in
      if not (text_eq status (text "healthy"))
      then (some (rpc_unhealthy status), w)
      else (ready_network want network, w')

  -- Prober.Ready
  unfoldable pub ready : Text → W → Option Error × W
  ready want w = let (health, w') = client.get_health w in ready_health want health w'
