-- ===== src/Prelude/Search.antt =====
-- `String.prototype.startsWith` and `includes`.
use mathlib.Core.Bool.{Bool, true, false, ◌||◌, ◌&&◌}
use mathlib.Core.List.{[], ◌∷◌}
use astrea.Prelude.Tests.{◌==◌}
use astrea.Prelude.Texts.{Text}

abbrev pub starts_with : Text → Text → Bool
starts_with [] s = true
starts_with (p ∷ ps) [] = false
starts_with (p ∷ ps) (c ∷ s) = let rest = starts_with ps s in c == p && rest

-- `text.includes(part)`
abbrev pub contains : Text → Text → Bool
contains [] part = starts_with part []
contains (c ∷ s) part = starts_with part (c ∷ s) || contains s part
