-- ===== src/Teams/Repo.antt =====
-- repo-ownership.ts: the repository that a URL names, and whether a GitHub user may submit it.
use astrea.Prelude.{
  ℕ, ◌+◌, Bool, true, false, ◌&&◌, ◌||◌, Option, none, some, [], ◌∷◌, ◌++◌, Text, codes, ◌===◌, leb,
  ◌==◌, all, map, trim, if◌then◌else◌, is_some,
}

-- What the code takes from its platform: the parts of `new URL(s)`, `none` when that throws, and
-- `toLowerCase`.
pub record ParsedUrl : Type 0 where
  pub href : Text
  pub protocol : Text
  pub hostname : Text
  pub pathname : Text

pub record Web : Type 0 where
  pub parse_url : Text → Option ParsedUrl
  pub to_lower_case : Text → Text

-- `[a-zA-Z0-9._-]`
unfoldable pub is_name_unit : ℕ → Bool
is_name_unit c =
    leb b'a' c && leb c b'z'
    || leb b'A' c && leb c b'Z'
    || leb b'0' c && leb c b'9'
    || c == b'.'
    || c == b'_'
    || c == b'-'

-- A letter of ASCII in lower case, as the flag `i` compares it.
abbrev pub fold : ℕ → ℕ
fold c = if leb b'A' c && leb c b'Z' then c + 32 else c

-- The part before a suffix, compared after `f`.
abbrev pub without_suffix : (ℕ → ℕ) → Text → Text → Option Text
without_suffix f suffix [] = if suffix === [] then some [] else none
without_suffix f suffix (c ∷ s) =
    let rest = without_suffix f suffix s in
    if map f (c ∷ s) === suffix then some [] else elim rest [ none ↦ none | some t ↦ some (c ∷ t) ]

-- The rest after a prefix, compared after `f`.
abbrev pub after_prefix : (ℕ → ℕ) → Text → Text → Option Text
after_prefix f [] s = some s
after_prefix f (p ∷ ps) [] = none
after_prefix f (p ∷ ps) (c ∷ s) = let rest = after_prefix f ps s in if f c == p then rest else none

-- `\/?$`
abbrev pub strip_slash : Text → Text
strip_slash s = elim (without_suffix (λ c. c) (codes "/") s) [ none ↦ s | some t ↦ t ]

-- `(?:\.git)?` after a lazy group of at least one unit.
abbrev pub strip_git : (ℕ → ℕ) → Text → Text
strip_git f s = elim (without_suffix f (codes ".git") s) [
  | none ↦ s
  | some [] ↦ s
  | some (c ∷ t) ↦ c ∷ t
]

-- `([a-zA-Z0-9._-]+)\/([a-zA-Z0-9._-]+?)(?:\.git)?\/?$`: the owner is what stands before the first slash.
abbrev pub split_slash : Text → Option (Text × Text)
split_slash [] = none
split_slash (c ∷ s) =
    let rest = split_slash s in
    if c == b'/' then some ([], s) else elim rest [ none ↦ none | some (o, r) ↦ some (c ∷ o, r) ]

abbrev pub is_name : Text → Bool
is_name [] = false
is_name (c ∷ s) = all is_name_unit (c ∷ s)

unfoldable pub owner_and_repo : (ℕ → ℕ) → Text → Option (Text × Text)
owner_and_repo f s = elim (split_slash s) [
  | none ↦ none
  | some (owner, tail) ↦
      if is_name owner && is_name (strip_slash tail)
      then some (owner, strip_git f (strip_slash tail))
      else none
]

-- GITHUB_REPO_PATH_REGEX
abbrev pub match_path : Text → Option (Text × Text)
match_path [] = none
match_path (c ∷ s) = if c == b'/' then owner_and_repo (λ d. d) s else none

abbrev pub match_ssh : Text → Option (Text × Text)
match_ssh s = elim (after_prefix fold (codes "git@github.com:") s) [
  | none ↦ none
  | some rest ↦ owner_and_repo fold rest
]

-- `/^https?:\/\//i.test(s)`
abbrev pub has_scheme : Text → Bool
has_scheme s =
    is_some (after_prefix fold (codes "http://") s)
    || is_some (after_prefix fold (codes "https://") s)

abbrev pub is_git_hub : Text → Bool
is_git_hub host = host === codes "github.com" || host === codes "www.github.com"

abbrev pub with_scheme : Text → Text
with_scheme s = if has_scheme s then s else codes "https://" ++ s

abbrev pub of_url : Web → Option ParsedUrl → Option (Text × Text)
of_url web none = none
of_url web (some url) =
    if is_git_hub (web.to_lower_case url.hostname) then match_path url.pathname else none

abbrev pub of_trimmed : Web → Text → Option (Text × Text)
of_trimmed web [] = none
of_trimmed web (c ∷ s) = elim (match_ssh (c ∷ s)) [
  | some found ↦ some found
  | none ↦ of_url web (web.parse_url (with_scheme (c ∷ s)))
]

unfoldable pub parse_git_hub_repo_url : Web → Text → Option (Text × Text)
unfolding owner_and_repo
parse_git_hub_repo_url web raw = of_trimmed web (trim raw)

pub record RepoPermissions : Type 0 where
  pub admin : Option Bool
  pub push : Option Bool
  pub pull : Option Bool

pub record RepoOwnershipInput : Type 0 where
  pub user_login : Text
  pub repo_owner : Text
  pub permissions : Option RepoPermissions
  pub is_collaborator : Option Bool

pub record RepoOwnershipResult : Type 0 where
  pub is_owner : Bool
  pub reason : Option Text

-- `x === true`
abbrev pub is_true : Option Bool → Bool
is_true (some true) = true
is_true _ = false

abbrev pub may_write : Option RepoPermissions → Bool
may_write none = false
may_write (some p) = is_true p.admin || is_true p.push

abbrev owned : RepoOwnershipResult
owned = record { is_owner = true; reason = none }

abbrev pub refusal : Text → Text → Text
refusal user owner =
    codes "GitHub user @"
    ++ (user
        ++ (codes " does not match repository owner @"
            ++ (owner ++ codes " and does not have admin/push permissions.")))

unfoldable pub check_repo_ownership : Web → RepoOwnershipInput → RepoOwnershipResult
check_repo_ownership web input =
    let user = trim input.user_login in
    let owner = trim input.repo_owner in
    if user === [] || owner === []
    then record {
      is_owner = false;
      reason = some (codes "Username and repository owner must both be non-empty.");
    }
    else if web.to_lower_case user === web.to_lower_case owner
    then owned
    else if may_write input.permissions
    then owned
    else if is_true input.is_collaborator
    then owned
    else record { is_owner = false; reason = some (refusal user owner) }
