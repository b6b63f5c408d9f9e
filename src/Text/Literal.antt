-- ===== src/Text/Literal.antt =====
-- Text written out, as the list of its code points.
use Prim.Native.Char.{code}
use Prim.Native.String.{String as Literal}
use sony_buds_tray_control.Prelude.{List, [], ℕ, ◌∷◌}

abbrev pub text : Literal → List ℕ
text Literal.[] = []
text (Literal.◌∷◌ c cs) = code c ∷ text cs
