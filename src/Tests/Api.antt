-- ===== src/Tests/Api.antt =====
-- Requests at concrete headers and clients.
use soroprobe.Prelude.{
  ◌≡◌, ◌↔◌, ◌≤◌, ◌+◌, ◌-◌, ◌*◌, ◌/◌, [], ◌∷◌, text, length, ltb, if◌then◌else◌, arith,
}
use soroprobe.Prelude.Int.{pos, pos_part}
use soroprobe.Api.Auth.{admitted, require_token}
use soroprobe.Api.Auth.Admitted.{Presents, require_token_iff}
use soroprobe.Api.RateLimit.{Arithmetic, Limiter, max_clients, take_tokens}
use soroprobe.Api.RateLimit.Bound.{take_tokens_bounded}

require_token_iff_example :
    (require_token (text "0123456789abcdef") (text "bearer 0123456789abcdef") ≡ admitted)
    ↔ Presents (text "bearer 0123456789abcdef") (text "0123456789abcdef")
require_token_iff_example =
    require_token_iff (text "0123456789abcdef") (text "bearer 0123456789abcdef")

-- whole tokens and seconds
abbrev whole : Arithmetic
whole = record {
  seconds = λ d. pos_part d / 1_000_000_000;
  add = λ a b. a + b;
  subtract = λ a b. a - b;
  multiply = λ a b. a * b;
  divide = λ a b. a / b;
  min = λ a b. if ltb a b then a else b;
  less = λ a b. ltb a b;
  ceil = λ a. pos a;
}

abbrev one_client : Limiter
one_client = record {
  rate_burst = 10;
  rate_per_second = 1;
  clients =
      (text "10.0.0.1", record { tokens = 1; capacity = 10; updated_at = pos 0; seen_at = pos 0 })
      ∷ [];
}

take_tokens_bounded_example :
    length (take_tokens whole (text "10.0.0.2") 3 (pos 5) one_client).1.clients ≤ max_clients
take_tokens_bounded_example =
    take_tokens_bounded whole (text "10.0.0.2") 3 (pos 5) one_client (omega arith)
