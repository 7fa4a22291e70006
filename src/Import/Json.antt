-- ===== src/Import/Json.antt =====
-- A value that `JSON.parse` gives, as lib/promptImport.ts inspects it: the numbers are not told
-- apart. An object is its members in order, each name once. `Result` is a value or what is thrown.
use prompt_maker_studio.Base.{
  if◌then◌else◌, Text, text_eq, ◌≡◌, refl, Bool, true, false, Option, none, some, List, [], ◌∷◌,
}

mutual
  pub data Json : Type 0 where
    null number : Json
    bool : Bool → Json
    string : Text → Json
    array : Items → Json
    object : Members → Json

  pub data Items : Type 0 where
    no_items : Items
    more : Json → Items → Items

  pub data Members : Type 0 where
    no_members : Members
    member : Text → Json → Members → Members

-- The items of an array.
abbrev pub items : Items → List Json
items no_items = []
items (more j js) = j ∷ items js

abbrev pub to_items : List Json → Items
to_items [] = no_items
to_items (j ∷ js) = more j (to_items js)

abbrev pub members : Members → List (Text × Json)
members no_members = []
members (member name j ms) = (name, j) ∷ members ms

abbrev pub to_members : List (Text × Json) → Members
to_members [] = no_members
to_members ((name, j) ∷ ms) = member name j (to_members ms)

-- `value[name]`; none is undefined.
abbrev pub get : Members → Text → Option Json
get no_members name = none
get (member n j ms) name = if text_eq n name then some j else get ms name

pub data Result {ℓ κ} (E : Type ℓ) (A : Type κ) : Type (ℓ ⊔ κ) where
  ok : A → Result E A
  err : E → Result E A

infixl 5 ◌>>=◌
abbrev pub ◌>>=◌ {ℓ κ μ} :
    {E : Type ℓ} {A : Type κ} {B : Type μ} → Result E A → (A → Result E B) → Result E B
ok a >>= f = f a
err e >>= f = err e

-- `if (!condition) return invalid(reason)`
abbrev pub check {ℓ} : {E : Type ℓ} → Bool → E → Result E (Unit {0})
check true e = ok tt
check false e = err e

infixl 5 ◌>>◌
abbrev pub ◌>>◌ {ℓ κ} : {E : Type ℓ} {B : Type κ} → Result E (Unit {0}) → Result E B → Result E B
m >> k = m >>= λ _. k

-- A computation that succeeded has succeeded in both its parts.
pub bind_ok {ℓ κ μ} :
    {E : Type ℓ} {A : Type κ} {B : Type μ} (m : Result E A) (f : A → Result E B) {b : B}
    → (m >>= f) ≡ ok b
    → (a : A) × (m ≡ ok a) × (f a ≡ ok b)
bind_ok (ok a) f h = (a, refl, h)
bind_ok (err e) f h = cc

pub check_ok {ℓ κ} :
    {E : Type ℓ} {B : Type κ} (c : Bool) (e : E) (k : Result E B) {b : B}
    → (check c e >> k) ≡ ok b
    → (c ≡ true) × (k ≡ ok b)
check_ok true e k h = (refl, h)
check_ok false e k h = cc
