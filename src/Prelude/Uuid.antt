-- ===== src/Prelude/Uuid.antt =====
-- apps/web/src/lib/uuid.ts.
use Prim.Native.Nat.{ℕ, zero, suc}
use mathlib.Core.Bool.{Bool, true, false, ◌&&◌, ◌||◌}
use mathlib.Core.List.{List, [], ◌∷◌}
use astrea.Prelude.Tests.{leb, ◌==◌}
use astrea.Prelude.Texts.{Text}

-- `[0-9a-f]` under the flag `i`.
abbrev is_hex_digit : ℕ → Bool
is_hex_digit c = leb b'0' c && leb c b'9' || leb b'a' c && leb c b'f' || leb b'A' c && leb c b'F'

-- What is still to be matched: `n` hexadecimal digits, then a dash and the next group for each number.
unfoldable pub is_groups : ℕ → List ℕ → Text → Bool
is_groups zero [] [] = true
is_groups zero [] (c ∷ s) = false
is_groups zero (n ∷ ns) [] = false
is_groups zero (n ∷ ns) (c ∷ s) = let rest = is_groups n ns s in c == b'-' && rest
is_groups (suc n) ns [] = false
is_groups (suc n) ns (c ∷ s) = let rest = is_groups n ns s in is_hex_digit c && rest

unfoldable pub is_uuid : Text → Bool
unfolding is_groups
is_uuid s = is_groups 8 (4 ∷ 4 ∷ 4 ∷ 12 ∷ []) s
