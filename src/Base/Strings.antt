-- ===== src/Base/Strings.antt =====
-- Text as the program sees it: the sequence of UTF-16 code units of a JavaScript string.
use Prim.Native.Char.{code}
use Prim.Native.String.{String}
use Prim.Native.Nat.{ℕ, ◌+◌, ◌≤◌}
use mathlib.Core.Path.{◌≡◌, refl, ap}
use mathlib.Core.Logic.{◌↔◌}
use mathlib.Core.Bool.{Bool, true, false, ◌&&◌, ◌||◌}
use mathlib.Core.List.{List, [], ◌∷◌, ◌++◌, reverse}
use mathlib.Core.Option
use mathlib.Core.Option.{some-injective, Option, none, some}
use native.Mathlib.Omega.{arith}
use prompt_maker_studio.Base.Tests.{leb, ◌==◌, if◌then◌else◌}
use prompt_maker_studio.Base.Lists.{length}

abbrev pub Text : Type 0
Text = List ℕ

-- A literal of the sources; they are all ASCII.
abbrev pub text : String → Text
text String.[] = []
text (String.◌∷◌ c s) = code c ∷ text s

-- `===` on strings.
abbrev pub text_eq : Text → Text → Bool
text_eq [] [] = true
text_eq [] (d ∷ t) = false
text_eq (c ∷ s) [] = false
text_eq (c ∷ s) (d ∷ t) = (c == d) && text_eq s t

pub text_eq_refl : (s : Text) → text_eq s s ≡ true
text_eq_refl [] = refl
text_eq_refl (c ∷ s) = ground (arith, text_eq_refl s)

pub eq_of_text_eq : (s t : Text) → text_eq s t ≡ true → s ≡ t
eq_of_text_eq [] [] h = refl
eq_of_text_eq [] (d ∷ t) h = cc
eq_of_text_eq (c ∷ s) [] h = cc
eq_of_text_eq (c ∷ s) (d ∷ t) h = ground (arith, eq_of_text_eq s t)

pub text_eq_iff : (s t : Text) → (text_eq s t ≡ true) ↔ (s ≡ t)
text_eq_iff s t = (eq_of_text_eq s t, λ e. rw e (text_eq_refl t))

pub text_eq_comm : (s t : Text) → text_eq s t ≡ text_eq t s
text_eq_comm [] [] = refl
text_eq_comm [] (c ∷ t) = refl
text_eq_comm (c ∷ s) [] = refl
text_eq_comm (c ∷ s) (d ∷ t) = ground (arith, text_eq_comm s t)

-- `Array.includes` on strings.
abbrev pub includes : List Text → Text → Bool
includes [] s = false
includes (t ∷ ts) s = text_eq t s || includes ts s

-- What `\s` matches and `trim` removes: the white space and line terminators of ECMAScript.
unfoldable pub is_space : ℕ → Bool
is_space c =
    (leb 9 c && leb c 13)
    || c == 32
    || c == 160
    || c == 5760
    || (leb 8192 c && leb c 8202)
    || c == 8232
    || c == 8233
    || c == 8239
    || c == 8287
    || c == 12288
    || c == 65279

-- `trimStart`, `trimEnd` and `trim`.
abbrev pub trim_start : Text → Text
trim_start [] = []
trim_start (c ∷ s) = if is_space c then trim_start s else c ∷ s

abbrev pub trim_end : Text → Text
trim_end s = reverse (trim_start (reverse s))

abbrev pub trim : Text → Text
trim s = trim_end (trim_start s)

abbrev pub is_empty : Text → Bool
is_empty [] = true
is_empty (c ∷ s) = false

-- `join` with a separator.
abbrev pub join : Text → List Text → Text
join sep [] = []
join sep (s ∷ []) = s
join sep (s ∷ t ∷ ts) = s ++ (sep ++ join sep (t ∷ ts))

abbrev pub take_while : (ℕ → Bool) → Text → Text
take_while p [] = []
take_while p (c ∷ s) = if p c then c ∷ take_while p s else []

abbrev pub drop_while : (ℕ → Bool) → Text → Text
drop_while p [] = []
drop_while p (c ∷ s) = if p c then drop_while p s else c ∷ s

-- What follows a literal at the head of a text.
abbrev pub strip : Text → Text → Option Text
strip [] s = some s
strip (c ∷ lit) [] = none
strip (c ∷ lit) (d ∷ s) = if c == d then strip lit s else none

abbrev pub is_prefix : Text → Text → Bool
is_prefix [] s = true
is_prefix (c ∷ needle) [] = false
is_prefix (c ∷ needle) (d ∷ s) = c == d && is_prefix needle s

-- `String.includes`
abbrev pub contains : Text → Text → Bool
contains [] needle = is_empty needle
contains (c ∷ s) needle = is_prefix needle (c ∷ s) || contains s needle

pub length-strip : (lit s r : Text) → strip lit s ≡ some r → length s ≡ length lit + length r
length-strip [] s r h = omega (arith, ap (λ o. length (Option.get_or o [])) h)
length-strip (c ∷ lit) [] r h = cc
length-strip (c ∷ lit) (d ∷ s) r h = ground (arith, length-strip lit s r)

pub eq_of_strip : (lit s r : Text) → strip lit s ≡ some r → s ≡ lit ++ r
eq_of_strip [] s r h = some-injective s r h
eq_of_strip (c ∷ lit) [] r h = cc
eq_of_strip (c ∷ lit) (d ∷ s) r h = ground (arith, eq_of_strip lit s r)

pub strip-append : (lit s : Text) → strip lit (lit ++ s) ≡ some s
strip-append [] s = refl
strip-append (c ∷ lit) s = ground (arith, strip-append lit s)

pub length-drop_while : (p : ℕ → Bool) (s : Text) → length (drop_while p s) ≤ length s
length-drop_while p [] = omega arith
length-drop_while p (c ∷ s) = ground (arith, length-drop_while p s)

pub length-trim_start : (s : Text) → length (trim_start s) ≤ length s
length-trim_start [] = omega arith
length-trim_start (c ∷ s) = ground (arith, length-trim_start s)
