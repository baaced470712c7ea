-- ===== src/Prelude/Text.antt =====
-- Go strings and byte slices as lists of bytes, with the operations of package strings that the
-- source calls.
use Prim.Native.Nat.{ℕ, ◌+◌}
use Prim.Native.Char.{code}
use Prim.Native.String.{String}
use mathlib.Core.Path.{◌≡◌, refl}
use mathlib.Core.Bool.{Bool, true, false, ◌&&◌}
use mathlib.Core.Logic.{◌↔◌}
use mathlib.Core.List.{map, List, [], ◌∷◌, ◌++◌, reverse}
use mathlib.Core.Option.{Option, none, some}
use native.Mathlib.Omega.{arith}
use owlwatch.Prelude.Tests.{leb, ◌==◌, if◌then◌else◌}

abbrev pub Bytes : Type 0
Bytes = List ℕ

-- An ASCII literal.
abbrev pub bytes : String → Bytes
bytes String.[] = []
bytes (String.◌∷◌ c s) = code c ∷ bytes s

-- `s == t`
unfoldable pub same : Bytes → Bytes → Bool
same [] [] = true
same (a ∷ s) (b ∷ t) = (a == b) && same s t
same _ _ = false

pub same_refl : (s : Bytes) → same s s ≡ true
unfolding same
same_refl [] = refl
same_refl (a ∷ s) = ground (arith, same_refl s)

pub same→eq : (s t : Bytes) → same s t ≡ true → s ≡ t
unfolding same
same→eq [] [] h = refl
same→eq [] (b ∷ t) h = cc
same→eq (a ∷ s) [] h = cc
same→eq (a ∷ s) (b ∷ t) h = ground (arith, same→eq s t)

pub same_iff : (s t : Bytes) → (same s t ≡ true) ↔ (s ≡ t)
same_iff s t = (same→eq s t, λ e. rw e (same_refl t))

-- strings.HasPrefix, with what follows the prefix
unfoldable pub cut_prefix : Bytes → Bytes → Option Bytes
cut_prefix s [] = some s
cut_prefix [] (b ∷ p) = none
cut_prefix (a ∷ s) (b ∷ p) = if a == b then cut_prefix s p else none

abbrev pub is_some {ℓ} : {A : Type ℓ} → Option A → Bool
is_some none = false
is_some (some _) = true

abbrev pub has_prefix : Bytes → Bytes → Bool
has_prefix s p = is_some (cut_prefix s p)

abbrev pub has_suffix : Bytes → Bytes → Bool
has_suffix s p = has_prefix (reverse s) (reverse p)

pub cut_prefix-append : (p s : Bytes) → cut_prefix (p ++ s) p ≡ some s
unfolding cut_prefix
cut_prefix-append [] s = refl
cut_prefix-append (b ∷ p) s = ground (arith, cut_prefix-append p s)

pub append_of_cut_prefix : (s p r : Bytes) → cut_prefix s p ≡ some r → s ≡ p ++ r
unfolding cut_prefix
append_of_cut_prefix s [] r h = ground arith
append_of_cut_prefix [] (b ∷ p) r h = cc
append_of_cut_prefix (a ∷ s) (b ∷ p) r h = ground (arith, append_of_cut_prefix s p r)

-- strings.ToLower of ASCII text
unfoldable pub to_lower : Bytes → Bytes
to_lower s = map (λ b. if leb 65 b && leb b 90 then b + 32 else b) s
