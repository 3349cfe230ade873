-- ===== src/Probe/Ready/Answer.antt =====
-- When an endpoint counts as ready.
use soroprobe.Prelude.{
  ◌≡◌, refl, ◌↔◌, Bool-cases, inl, inr, Bool, true, false, none, Result, ok, err, Text, text,
  text_eq, text_eq_iff, arith,
}
use soroprobe.Errors.{Error}
use soroprobe.Stellar.{Client}
use soroprobe.Probe.Ready.{ready_network, ready_health, ready}

ready_network_iff :
    (want : Text) (r : Result Error Text) → (ready_network want r ≡ none) ↔ (r ≡ ok want)
unfolding ready_network
ready_network_iff want (err e) = (λ h. absurd cc, λ h. absurd cc)
ready_network_iff want (ok s) = ground (arith, text_eq_iff s want)

abbrev healthy_answer : Text → Result Error Text
healthy_answer s = ok s

ok_inj : {s t : Text} → healthy_answer s ≡ healthy_answer t → s ≡ t
ok_inj h = cc

differs : {b : Bool} → b ≡ true → b ≡ false → ⊥
differs h k = cc

module _ {W : Type 0} (client : Client W) where
  ready_health_iff :
      (want : Text) (r : Result Error Text) (w : W)
      → ((ready_health client want r w).0 ≡ none)
        ↔ ((r ≡ ok (text "healthy")) × ((client.get_network w).0 ≡ ok want))
  unfolding ready_health
  ready_health_iff want (err e) w = (λ h. absurd cc, λ h. absurd (h_ne e h.0))
    where
      h_ne : (x : Error) → ¬ (err x ≡ ok (text "healthy"))
      h_ne x h = cc
  ready_health_iff want (ok s) w = elim (Bool-cases (text_eq s (text "healthy"))) [
    | inl same ↦
        rw (same, (text_eq_iff s (text "healthy")).0 same)
          (λ h. (refl, (ready_network_iff want _).0 h), λ h. (ready_network_iff want _).1 h.1)
    | inr differ ↦ rw differ (
      λ h. absurd cc,
      λ h. absurd (differs ((text_eq_iff s (text "healthy")).1 (ok_inj h.0)) differ),
    )
  ]

  -- An endpoint is ready just if it answers that it is healthy, and then that it serves the network
  -- asked for.
  pub ready_iff :
      (want : Text) (w : W)
      → let health = client.get_health w in
        ((ready client want w).0 ≡ none)
        ↔ ((health.0 ≡ ok (text "healthy")) × ((client.get_network health.1).0 ≡ ok want))
  unfolding ready
  ready_iff want w = ready_health_iff want (client.get_health w).0 (client.get_health w).1
