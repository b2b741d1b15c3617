-- ===== src/Prelude/Texts.antt =====
-- Texts: equality as a decision, and the codes of the characters.
use Prim.Native.Nat.{ℕ}
use Prim.Native.Char.{code}
use Prim.Native.String.{String}
use mathlib.Core.List.{List, [], ◌∷◌}
use native.Mathlib.Decide.{ℕ_discrete}
use congress.Prelude.Elements.{List-discrete}
use mathlib.Core.Path.{◌≡◌, refl, ◌∙◌, sym}
use mathlib.Core.Bool.{Bool, true, false, false≢true}
use text.Mathlib.Text.{◌==◌}
use text.Mathlib.TextEquality.{eq_iff}

decision : (s t : String) (b : Bool) → (s == t) ≡ b → Dec (s ≡ t)
decision s t true e = yes ((eq_iff s t).0 e)
decision s t false e = no (λ p. false≢true (sym e ∙ (eq_iff s t).1 p))

unfoldable pub String-discrete : Discrete String
unfolding decision
String-discrete s t = decision s t (s == t) refl

-- a text that is taken apart: the codes of its characters
abbrev pub Text : Type 0
Text = List ℕ

unfoldable pub Text-discrete : Discrete Text
unfolding List-discrete ℕ_discrete
Text-discrete = List-discrete ℕ_discrete

abbrev pub codes : String → Text
codes String.[] = []
codes (String.◌∷◌ c s) = code c ∷ codes s
