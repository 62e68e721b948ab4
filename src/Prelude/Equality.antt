-- ===== src/Prelude/Equality.antt =====
-- Equality of texts: the library's test, and the decision.
use Prim.Native.String.{String}
use text.Mathlib.Text.{◌==◌}
use text.Mathlib.TextEquality.{eq_iff}
use mathlib.Core.Path.{◌≡◌, refl}
use mathlib.Core.Bool.{Bool, true, false}
use native.Mathlib.Omega.{arith}

pub ==-self : (s : String) → (s == s) ≡ true
==-self s = (eq_iff s s).1 refl

pub String-discrete : Discrete String
String-discrete s t = go (s == t) refl
  where
    go : (b : Bool) → (s == t) ≡ b → Dec (s ≡ t)
    go true h = yes ((eq_iff s t).0 h)
    go false h = no (λ p. ground (arith, (eq_iff s t).1 p))
