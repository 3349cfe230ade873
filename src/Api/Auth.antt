-- ===== src/Api/Auth.antt =====
-- internal/api/auth.go: the bearer token.
pub mod Admitted
use soroprobe.Prelude.{
  ℕ, ◌+◌, Bool, true, false, not, ◌&&◌, ◌||◌, Option, none, some, List, [], ◌∷◌, if◌then◌else◌, leb,
  ◌==◌, Text, text, text_eq, is_empty, length, take, drop,
}
use soroprobe.Prelude.Strings.{trim_space}

-- the answer to a request: it goes on, or is refused with status 401 and the detail
pub data Admission : Type 0 where
  admitted missing_bearer_token invalid_bearer_token : Admission

-- strings.EqualFold with an ASCII text, on a text of its length
unfoldable pub fold_byte : ℕ → ℕ
fold_byte c = if leb b'A' c && leb c b'Z' then c + 32 else c

unfoldable pub equal_fold : Text → Text → Bool
equal_fold [] [] = true
equal_fold (a ∷ as_) (b ∷ bs) = fold_byte a == fold_byte b && equal_fold as_ bs
equal_fold _ _ = false

abbrev pub bearer_prefix : Text
bearer_prefix = text "Bearer "

-- bearerToken, on the value of the Authorization header
unfoldable pub bearer_token : Text → Option Text
bearer_token header =
    if leb (length header) (length bearer_prefix)
      || not (equal_fold (take (length bearer_prefix) header) bearer_prefix)
    then none
    else let token = trim_space (drop (length bearer_prefix) header) in
      if is_empty token then none else some token

-- requireToken
unfoldable pub require_token : Text → Text → Admission
require_token expected header = elim (bearer_token header) [
  | none ↦ missing_bearer_token
  | some presented ↦ if not (text_eq presented expected) then invalid_bearer_token else admitted
]
