-- ===== src/Teams/Slugs.antt =====
-- The part `owner/repo` of a repository's address, with the ends that it may have.
use astrea.Prelude.{
  ℕ, ◌≡◌, ◌≢◌, ◌⊎◌, refl, ap, sym, ◌∙◌, inl, inr, true, ◌&&◌, some, [], ◌∷◌, ◌++◌, Text, codes,
  arith, ◌===◌, ◌==◌, all, map, All, Bool-cases, Option-cases, append-nil, append_assoc,
  All-append_left,
}
use mathlib.Core.Path.{subst}
use astrea.Teams.Repo.{
  is_name_unit, without_suffix, strip_slash, strip_git, split_slash, is_name, owner_and_repo,
}

-- A nonempty name.
abbrev pub IsName : Text → Type 0
IsName s = (s ≢ []) × All (λ c. is_name_unit c ≡ true) s

-- What may stand after a repository's name: `.git`, spelled as `f` reads it, and a slash.
pub record IsEnd (f : ℕ → ℕ) (t : Text) : Type 0 where
  pub git : Text
  pub slash : Text
  pub both : t ≡ git ++ slash
  pub is_git : (git ≡ []) ⊎ (map f git ≡ codes ".git")
  pub is_slash : (slash ≡ []) ⊎ (slash ≡ codes "/")

-- `owner/repo` with one of those ends.
pub record IsSlug (f : ℕ → ℕ) (s owner repo : Text) : Type 0 where
  pub ending : Text
  pub shape : s ≡ owner ++ b'/' ∷ (repo ++ ending)
  pub owner_name : IsName owner
  pub repo_name : IsName repo
  pub ends : IsEnd f ending

same_text : (a b : Text) → (a === b) ≡ true → a ≡ b
same_text a b h = ground arith

without_suffix_lem :
    (f : ℕ → ℕ) (suffix s t : Text)
    → without_suffix f suffix s ≡ some t
    → (g : Text) × (map f g ≡ suffix) × (s ≡ t ++ g)
without_suffix_lem f suffix [] t h = elim (Bool-cases (suffix === [])) [
  | inr other ↦ absurd (ground arith)
  | inl same ↦ ([], sym (same_text suffix [] same), ground arith)
]
without_suffix_lem f suffix (c ∷ s) t h = elim (Bool-cases (map f (c ∷ s) === suffix)) [
  | inl same ↦ (c ∷ s, same_text (map f (c ∷ s)) suffix same, ground arith)
  | inr other ↦ elim (Option-cases (without_suffix f suffix s)) [
    | inl missing ↦ absurd (ground arith)
    | inr (u, found) ↦
        let (g, is, split) = without_suffix_lem f suffix s u found in
        let longer : c ∷ u ≡ t = ground arith in
        (g, is, ap (λ x. c ∷ x) split ∙ ap (λ x. x ++ g) longer)
  ]
]

split_slash_lem : (s o r : Text) → split_slash s ≡ some (o, r) → s ≡ o ++ b'/' ∷ r
split_slash_lem [] o r h = absurd (ground arith)
split_slash_lem (c ∷ s) o r h = elim (Bool-cases (c == b'/')) [
  | inl slash ↦ ground arith
  | inr other ↦ elim (Option-cases (split_slash s)) [
    | inl missing ↦ absurd (ground arith)
    | inr ((o', r'), found) ↦
        let split = split_slash_lem s o' r' found in
        let longer : c ∷ o' ≡ o = ground arith in
        let same : r' ≡ r = ground arith in
        ap (λ x. c ∷ x) split ∙ (ap (λ x. x ++ b'/' ∷ r') longer ∙ ap (λ x. o ++ b'/' ∷ x) same)
  ]
]

all_lem : (s : Text) → all is_name_unit s ≡ true → All (λ c. is_name_unit c ≡ true) s
all_lem [] h = tt
all_lem (c ∷ s) h = (ground arith, all_lem s (ground arith))

is_name_lem : (s : Text) → is_name s ≡ true → IsName s
is_name_lem [] h = absurd (ground arith)
is_name_lem (c ∷ s) h = (λ e. ground arith, all_lem (c ∷ s) h)

map_id : (s : Text) → map (λ c. c) s ≡ s
map_id [] = refl
map_id (c ∷ s) = ap (λ t. c ∷ t) (map_id s)

strip_slash_lem : (s : Text) → (t : Text) × (s ≡ strip_slash s ++ t) × ((t ≡ []) ⊎ (t ≡ codes "/"))
strip_slash_lem s = elim (Option-cases (without_suffix (λ c. c) (codes "/") s)) [
  | inl missing ↦
      let same : strip_slash s ≡ s = ground arith in ([], rw same (sym (append-nil s)), inl refl)
  | inr (t, found) ↦
      let (g, is, split) = without_suffix_lem (λ c. c) (codes "/") s t found in
      let same : strip_slash s ≡ t = ground arith in (g, rw same split, inr (sym (map_id g) ∙ is))
]

-- What a clone URL may have after the name, read off a name.
abbrev Stripped : (ℕ → ℕ) → Text → Text → Type 0
Stripped f s name =
    IsName name × ((t : Text) × (s ≡ name ++ t) × ((t ≡ []) ⊎ (map f t ≡ codes ".git")))

unstripped : (f : ℕ → ℕ) (s : Text) → IsName s → Stripped f s s
unstripped f s name = (name, ([], sym (append-nil s), inl refl))

IsName-append :
    (c : ℕ) (s t : Text) → All (λ d. is_name_unit d ≡ true) ((c ∷ s) ++ t) → IsName (c ∷ s)
IsName-append c s t units =
    (λ e. ground arith, All-append_left (λ d. is_name_unit d ≡ true) (c ∷ s) t units)

strip_git_lem : (f : ℕ → ℕ) (s : Text) → IsName s → Stripped f s (strip_git f s)
strip_git_lem f s name = elim (Option-cases (without_suffix f (codes ".git") s)) [
  | inl missing ↦ let same : strip_git f s ≡ s = ground arith in rw same (unstripped f s name)
  | inr ([], found) ↦ let same : strip_git f s ≡ s = ground arith in rw same (unstripped f s name)
  | inr (c ∷ t, found) ↦
      let (g, is, split) = without_suffix_lem f (codes ".git") s (c ∷ t) found in
      let same : strip_git f s ≡ c ∷ t = ground arith in
      let units : All (λ d. is_name_unit d ≡ true) ((c ∷ t) ++ g) =
        subst (λ x. All (λ d. is_name_unit d ≡ true) x) split name.1 in
      rw same (IsName-append c t g units, (g, split, inr is))
]

pub owner_and_repo_lem :
    (f : ℕ → ℕ) (s owner repo : Text)
    → owner_and_repo f s ≡ some (owner, repo)
    → IsSlug f s owner repo
unfolding owner_and_repo
owner_and_repo_lem f s owner repo h = elim (Option-cases (split_slash s)) [
  | inl missing ↦ absurd (ground arith)
  | inr ((o, tail), found) ↦ elim (Bool-cases (is_name o && is_name (strip_slash tail))) [
    | inr bad ↦ absurd (ground arith)
    | inl good ↦
        let split = split_slash_lem s o tail found in
        let (slash, tail_is, is_slash) = strip_slash_lem tail in
        let (name, (git, body_is, is_git)) =
          strip_git_lem f (strip_slash tail) (is_name_lem (strip_slash tail) (ground arith)) in
        let same_owner : o ≡ owner = ground arith in
        let same_repo : strip_git f (strip_slash tail) ≡ repo = ground arith in
        let tail_shape : tail ≡ strip_git f (strip_slash tail) ++ (git ++ slash) =
          tail_is
          ∙ (ap (λ x. x ++ slash) body_is
              ∙ append_assoc (strip_git f (strip_slash tail)) git slash) in
        subst (λ x. IsSlug f s x repo) same_owner
          (subst (λ x. IsSlug f s o x) same_repo
            (record {
              ending = git ++ slash;
              shape = split ∙ ap (λ x. o ++ b'/' ∷ x) tail_shape;
              owner_name = is_name_lem o (ground arith);
              repo_name = name;
              ends = record {
                git = git;
                slash = slash;
                both = refl;
                is_git = is_git;
                is_slash = is_slash;
              };
            }))
  ]
]
