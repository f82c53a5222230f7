-- ===== src/Prelude/Text.antt =====
-- Strings, as names are tested.
use Prim.Native.String.{String, [], ◌∷◌}
use mathlib.Core.Bool.{Bool, true, false}
use text.Mathlib.Text.{◌==◌}
use text.Mathlib.TextEquality.{eq_iff}
use mathlib.Core.Path.{◌≡◌}
use mathlib.Core.Logic.{◌↔◌}

-- `s.empty()`
abbrev pub is_empty : String → Bool
is_empty [] = true
is_empty (c ∷ cs) = false

-- `==` of two texts.
abbrev pub same_text : String → String → Bool
same_text s t = s == t

pub same_text_iff : (s t : String) → (same_text s t ≡ true) ↔ (s ≡ t)
same_text_iff = eq_iff
