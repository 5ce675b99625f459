-- ===== src/Common/Strings.antt =====
-- Strings as lists of code points. Case changes are those of ASCII: the words that the program
-- compares (types, keywords) are ASCII, and other characters are left as they are.
use Prim.Native.Nat.{ℕ, ◌+◌, ◌-◌}
use Prim.Native.Char.{code}
use Prim.Native.String.{String}
use mathlib.Core.Path.{◌≡◌, refl}
use mathlib.Core.Logic.{◌↔◌}
use mathlib.Core.Bool.{Bool, true, false, ◌&&◌, ◌||◌}
use mathlib.Core.List.{List, [], ◌∷◌, map}
use native.Mathlib.Omega.{arith}
use res_q_server.Common.Tests.{leb, nat_beq, Eq, if◌then◌else◌}

abbrev pub Text : Type 0
Text = List ℕ

-- A literal of the source.
abbrev pub codes : String → Text
codes String.[] = []
codes (String.◌∷◌ c s) = code c ∷ codes s

abbrev pub upper_code : ℕ → ℕ
upper_code c = if leb b'a' c && leb c b'z' then c - 32 else c

abbrev pub lower_code : ℕ → ℕ
lower_code c = if leb b'A' c && leb c b'Z' then c + 32 else c

-- String.prototype.toUpperCase, toLowerCase
abbrev pub to_upper : Text → Text
to_upper = map upper_code

abbrev pub to_lower : Text → Text
to_lower = map lower_code

abbrev pub starts_with : Text → Text → Bool
starts_with s [] = true
starts_with [] (c ∷ cs) = false
starts_with (a ∷ s) (c ∷ cs) = nat_beq a c && starts_with s cs

-- String.prototype.includes
abbrev pub includes_text : Text → Text → Bool
includes_text [] cs = starts_with [] cs
includes_text (a ∷ s) cs = starts_with (a ∷ s) cs || includes_text s cs

abbrev pub text_beq : Text → Text → Bool
text_beq [] [] = true
text_beq (a ∷ s) (b ∷ t) = nat_beq a b && text_beq s t
text_beq s t = false

pub text_beq_iff : (s t : Text) → (text_beq s t ≡ true) ↔ (s ≡ t)
text_beq_iff [] [] = (λ _. refl, λ _. refl)
text_beq_iff [] (b ∷ t) = ground arith
text_beq_iff (a ∷ s) [] = ground arith
text_beq_iff (a ∷ s) (b ∷ t) = ground (arith, text_beq_iff s t)

instance abbrev pub text_eq : Eq Text
text_eq = record { equals = text_beq; equals_iff = text_beq_iff }

-- String.prototype.trim() === '' : nothing but white space
abbrev pub is_blank : Text → Bool
is_blank [] = true
is_blank (c ∷ s) = (nat_beq c 32 || leb 9 c && leb c 13 || nat_beq c 160) && is_blank s
