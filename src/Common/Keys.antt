-- ===== src/Common/Keys.antt =====
-- Map keys: a type with a decidable equality, as an instance. Go compares strings and key structs
-- by `==`.
use Prim.Native.String.{String}
use mathlib.Core.Path.{◌≡◌, refl}
use mathlib.Core.Bool.{Bool, true, false}
use text.Mathlib.Text.{◌==◌ as text_eq}
use text.Mathlib.TextEquality.{eq_iff}

dec_of : (s t : String) (b : Bool) → text_eq s t ≡ b → Dec (s ≡ t)
dec_of s t true e = yes ((eq_iff s t).0 e)
dec_of s t false e = no (λ p. cc (e, (eq_iff s t).1 p))

unfoldable pub str_dec : Discrete String
unfolding dec_of
str_dec s t = dec_of s t (text_eq s t) refl

pub record Key {ℓ} (K : Type ℓ) : Type ℓ where
  pub dec : Discrete K

instance abbrev pub string_key : Key String
string_key = record { dec = str_dec }

-- `a == b`
infix 50 ◌==◌
abbrev pub ◌==◌ {ℓ} : {K : Type ℓ} ⦃key : Key K⦄ → K → K → Bool
◌==◌ ⦃key⦄ a b = elim (key.dec a b) [ yes _ ↦ true | no _ ↦ false ]
