-- ===== src/Prelude/Map.antt =====
-- Go maps as functions into `Option`. A `range` over a map takes the order of the keys as an argument.
use mathlib.Core.Bool.{Bool, true, false}
use mathlib.Core.Option.{Option, none, some}
use mathlib.Core.List.{List}
use orlop.Prelude.Texts.{Text, eqb}
use orlop.Prelude.Tests.{if◌then◌else◌}

abbrev pub Map : Type 0 → Type 0 → Type 0
Map K V = K → Option V

abbrev pub empty : {K V : Type 0} → Map K V
empty k = none

-- m[k] = v, for a map with string keys
abbrev pub put : {V : Type 0} → Map Text V → Text → V → Map Text V
put m k v j = if eqb k j then some v else m j

-- delete(m, k)
abbrev pub remove : {V : Type 0} → Map Text V → Text → Map Text V
remove m k j = if eqb k j then none else m j

abbrev pub is_empty : Text → Bool
is_empty List.[] = true
is_empty (List.◌∷◌ c s) = false
