-- ===== src/Prelude/Json.antt =====
-- The values of a parsed JSON text. A number is kept by its literal.
use mathlib.Core.Bool.{Bool}
use mathlib.Core.Option.{Option, none, some}
use astrea.Prelude.Tests.{if◌then◌else◌}
use astrea.Prelude.Texts.{Text, ◌===◌}

mutual
  pub data Json : Type 0 where
    null : Json
    bool : Bool → Json
    num : Text → Json
    str : Text → Json
    arr : JsonItems → Json
    obj : JsonFields → Json

  pub data JsonItems : Type 0 where
    nil : JsonItems
    cons : Json → JsonItems → JsonItems

  pub data JsonFields : Type 0 where
    end : JsonFields
    field : Text → Json → JsonFields → JsonFields

-- The own property of that name.
unfoldable pub member : Text → JsonFields → Option Json
member k end = none
member k (field j v fs) = let rest = member k fs in if k === j then some v else rest
