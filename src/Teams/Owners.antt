-- ===== src/Teams/Owners.antt =====
-- What a repository's URL is read as.
use astrea.Prelude.{
  ℕ, ◌≡◌, ◌≢◌, ◌↔◌, ◌⊎◌, refl, ap, ◌∙◌, inl, inr, true, some, [], ◌∷◌, ◌++◌, Text, codes, arith,
  ◌==◌, map, trim, Bool-cases, Option-cases,
}
use astrea.Teams.Repo.{
  ParsedUrl, Web, fold, after_prefix, match_path, match_ssh, is_git_hub, with_scheme, of_url,
  of_trimmed, parse_git_hub_repo_url, RepoOwnershipInput, check_repo_ownership, may_write, is_true,
}
use astrea.Teams.Slugs.{IsSlug, owner_and_repo_lem}

after_prefix_lem :
    (f : ℕ → ℕ) (p s t : Text)
    → after_prefix f p s ≡ some t
    → (q : Text) × (map f q ≡ p) × (s ≡ q ++ t)
after_prefix_lem f [] s t h = ([], refl, ground arith)
after_prefix_lem f (x ∷ p) [] t h = absurd (ground arith)
after_prefix_lem f (x ∷ p) (c ∷ s) t h = elim (Bool-cases (f c == x)) [
  | inr other ↦ absurd (ground arith)
  | inl same ↦
      let (q, is, split) = after_prefix_lem f p s t (ground arith) in
      let head : f c ≡ x = ground arith in
      (c ∷ q, ap (λ y. y ∷ map f q) head ∙ ap (λ y. x ∷ y) is, ap (λ y. c ∷ y) split)
]

-- The two readings of a trimmed text: an address for `git` over SSH, or a URL of github.com.
pub data IsRepo (web : Web) (s owner repo : Text) : Type 0 where
  ssh :
      (prefix rest : Text)
      → map fold prefix ≡ codes "git@github.com:"
      → s ≡ prefix ++ rest
      → IsSlug fold rest owner repo
      → IsRepo web s owner repo
  http :
      (url : ParsedUrl) (path : Text)
      → web.parse_url (with_scheme s) ≡ some url
      → is_git_hub (web.to_lower_case url.hostname) ≡ true
      → url.pathname ≡ b'/' ∷ path
      → IsSlug (λ c. c) path owner repo
      → IsRepo web s owner repo

match_ssh_lem :
    (web : Web) (s owner repo : Text) → match_ssh s ≡ some (owner, repo) → IsRepo web s owner repo
match_ssh_lem web s owner repo h =
    elim (Option-cases (after_prefix fold (codes "git@github.com:") s)) [
      | inl missing ↦ absurd (ground arith)
      | inr (rest, found) ↦
          let (q, is, split) = after_prefix_lem fold (codes "git@github.com:") s rest found in
          ssh q rest is split (owner_and_repo_lem fold rest owner repo (ground arith))
    ]

match_path_lem :
    (path owner repo : Text)
    → match_path path ≡ some (owner, repo)
    → (rest : Text) × (path ≡ b'/' ∷ rest) × IsSlug (λ c. c) rest owner repo
match_path_lem [] owner repo h = absurd (ground arith)
match_path_lem (c ∷ s) owner repo h = elim (Bool-cases (c == b'/')) [
  | inr other ↦ absurd (ground arith)
  | inl slash ↦ (s, ground arith, owner_and_repo_lem (λ d. d) s owner repo (ground arith))
]

of_url_lem :
    (web : Web) (s owner repo : Text)
    → of_url web (web.parse_url (with_scheme s)) ≡ some (owner, repo)
    → IsRepo web s owner repo
of_url_lem web s owner repo h = elim (Option-cases (web.parse_url (with_scheme s))) [
  | inl missing ↦ absurd (ground arith)
  | inr (url, parsed) ↦ elim (Bool-cases (is_git_hub (web.to_lower_case url.hostname))) [
    | inr other ↦ absurd (ground arith)
    | inl host ↦
        let (rest, path, slug) = match_path_lem url.pathname owner repo (ground arith) in
        http url rest parsed host path slug
  ]
]

of_trimmed_lem :
    (web : Web) (s owner repo : Text)
    → of_trimmed web s ≡ some (owner, repo)
    → IsRepo web s owner repo
of_trimmed_lem web [] owner repo h = absurd (ground arith)
of_trimmed_lem web (c ∷ s) owner repo h = elim (Option-cases (match_ssh (c ∷ s))) [
  | inr ((o, r), found) ↦ match_ssh_lem web (c ∷ s) owner repo (ground arith)
  | inl missing ↦ of_url_lem web (c ∷ s) owner repo (ground arith)
]

-- The owner and the repository read off a URL are nonempty names of the allowed units. The trimmed URL
-- is `git@github.com:owner/repo`, the host in any case, or its host is github.com or www.github.com and its
-- path is /owner/repo; an end `.git` and one last slash may follow.
pub parse_git_hub_repo_url_lem :
    (web : Web) (raw owner repo : Text)
    → parse_git_hub_repo_url web raw ≡ some (owner, repo)
    → IsRepo web (trim raw) owner repo
unfolding parse_git_hub_repo_url
parse_git_hub_repo_url_lem web raw owner repo h = of_trimmed_lem web (trim raw) owner repo h

-- A user may submit a repository exactly if both names have more than white space and the user's login is
-- the owner's, whatever the case, or may write to the repository, or is a collaborator.
pub check_repo_ownership_iff :
    (web : Web) (input : RepoOwnershipInput)
    → ((check_repo_ownership web input).is_owner ≡ true) ↔ (
        (trim input.user_login ≢ [])
        × (trim input.repo_owner ≢ [])
        × ((web.to_lower_case (trim input.user_login) ≡ web.to_lower_case (trim input.repo_owner))
            ⊎ ((may_write input.permissions ≡ true) ⊎ (is_true input.is_collaborator ≡ true))))
unfolding check_repo_ownership
check_repo_ownership_iff web input = (λ h. ground arith, λ h. ground arith)
