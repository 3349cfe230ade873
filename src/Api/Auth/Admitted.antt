-- ===== src/Api/Auth/Admitted.antt =====
-- Which requests the token lets through.
use soroprobe.Prelude.{
  ◌≡◌, ◌≢◌, ◌||◌, leb, is_empty, take, drop, take-append, drop-append, append-take-drop,
  length-append, sym, ◌↔◌, refl, Bool, true, false, not, Option, none, some, [], ◌∷◌, ◌++◌,
  if◌then◌else◌, Text, text_eq, text_eq_iff, length, arith,
}
use soroprobe.Prelude.Strings.{trim_space, trim_from}
use soroprobe.Api.Auth.{
  Admission, admitted, missing_bearer_token, invalid_bearer_token, bearer_prefix, equal_fold,
  bearer_token, require_token,
}

some_inj : {s t : Text} → some s ≡ some t → s ≡ t
some_inj h = cc

decided : Option Text → Text → Admission
decided o expected = elim o [
  | none ↦ missing_bearer_token
  | some presented ↦ if not (text_eq presented expected) then invalid_bearer_token else admitted
]

decided_iff :
    (o : Option Text) (expected : Text) → (decided o expected ≡ admitted) ↔ (o ≡ some expected)
unfolding decided
decided_iff none expected = (λ h. absurd cc, λ h. absurd cc)
decided_iff (some presented) expected = ground (arith, text_eq_iff presented expected)

-- The header begins with the scheme, in any case, and the rest without the spaces around it is the
-- token.
abbrev pub Presents : Text → Text → Type 0
Presents header token =
    (scheme : Text) × (rest : Text) × (header ≡ scheme ++ rest)
    × (equal_fold scheme bearer_prefix ≡ true)
    × (trim_space rest ≡ token)
    × (is_empty token ≡ false)

length-equal_fold : (s t : Text) → equal_fold s t ≡ true → length s ≡ length t
unfolding equal_fold
length-equal_fold [] [] h = refl
length-equal_fold [] (b ∷ t) h = absurd cc
length-equal_fold (a ∷ s) [] h = absurd cc
length-equal_fold (a ∷ s) (b ∷ t) h = ground (arith, length-equal_fold s t)

trimmed : (rest : Text) → is_empty (trim_space rest) ≡ false → length rest ≢ 0
unfolding trim_space trim_from
trimmed [] h e = cc
trimmed (c ∷ rest) h e = omega (arith, e)

bearer_token_if : (header token : Text) → Presents header token → bearer_token header ≡ some token
unfolding bearer_token
bearer_token_if header token (scheme, rest, e, fold, trim, full) =
    let seven : length scheme ≡ 7 = length-equal_fold scheme bearer_prefix fold in
    let more : length rest ≢ 0 = trimmed rest (rw trim full) in
    let long : leb (length (scheme ++ rest)) 7 ≡ false =
      ground (arith, length-append {0} scheme rest, seven, more) in
    let taken : take 7 (scheme ++ rest) ≡ scheme = rw (← seven) (take-append scheme rest) in
    let dropped : drop 7 (scheme ++ rest) ≡ rest = rw (← seven) (drop-append scheme rest) in
    rw (e, long, taken, dropped, fold, trim, full) refl

abbrev token_if : Bool → Bool → Bool → Text → Option Text
token_if short scheme empty token =
    if short || not scheme then none else if empty then none else some token

token_if-some :
    (short scheme empty : Bool) (t token : Text)
    → token_if short scheme empty t ≡ some token
    → (scheme ≡ true) × (empty ≡ false) × (t ≡ token)
token_if-some false true false t token h = (refl, refl, some_inj h)
token_if-some true scheme empty t token h = absurd cc
token_if-some false false empty t token h = absurd cc
token_if-some false true true t token h = absurd cc

bearer_token_only : (header token : Text) → bearer_token header ≡ some token → Presents header token
unfolding bearer_token
bearer_token_only header token h =
    let (fold, full, same) = token_if-some _ _ _ _ token h in
    (take 7 header, drop 7 header, sym (append-take-drop 7 header), fold, same, rw (← same) full)

-- A request goes on just if its header presents the configured token, which then is not empty and has
-- no white space around it.
pub require_token_iff :
    (expected header : Text) → (require_token expected header ≡ admitted) ↔ Presents header expected
unfolding require_token decided
require_token_iff expected header =
    let (to, back) = decided_iff (bearer_token header) expected in
    (λ h. bearer_token_only header expected (to h), λ h. back (bearer_token_if header expected h))
