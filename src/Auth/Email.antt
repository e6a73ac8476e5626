-- ===== src/Auth/Email.antt =====
-- validation.ts.
use astrea.Prelude.{
  ℕ, Bool, true, false, ◌&&◌, ◌||◌, not, Option, none, some, [], ◌∷◌, Text, ◌==◌, if◌then◌else◌,
  all, trim, is_space, Result, ok, err,
}
use astrea.Auth.Nonce.{AuthError, invalid_email}

-- `[^\s@]`
abbrev is_plain : ℕ → Bool
is_plain c = not (is_space c) && not (c == b'@')

abbrev is_empty : Text → Bool
is_empty [] = true
is_empty (_ ∷ _) = false

-- A point that is followed by something.
unfoldable pub has_inner_point : Text → Bool
has_inner_point [] = false
has_inner_point (c ∷ s) = c == b'.' && not (is_empty s) || has_inner_point s

-- `[^\s@]+\.[^\s@]+$`
unfoldable pub is_domain : Text → Bool
unfolding has_inner_point
is_domain [] = false
is_domain (c ∷ s) = all is_plain (c ∷ s) && has_inner_point s

-- What may follow the first unit of the local part: `[^\s@]*@` and the domain.
unfoldable pub is_local_rest : Text → Bool
unfolding is_domain
is_local_rest [] = false
is_local_rest (c ∷ s) =
    let rest = is_local_rest s in if c == b'@' then is_domain s else is_plain c && rest

-- `/^[^\s@]+@[^\s@]+\.[^\s@]+$/.test(s)`
unfoldable pub is_email : Text → Bool
unfolding is_local_rest
is_email [] = false
is_email (c ∷ s) = is_plain c && is_local_rest s

-- `email?: string | null`
pub data EmailInput : Type 0 where
  undefined null : EmailInput
  given : Text → EmailInput

unfoldable pub validate_optional_email : EmailInput → Result AuthError (Option Text)
unfolding is_email
validate_optional_email undefined = ok none
validate_optional_email null = ok none
validate_optional_email (given email) =
    let trimmed = trim email in
    if is_empty trimmed
    then ok none
    else if is_email trimmed
    then ok (some trimmed)
    else err invalid_email
