-- ===== src/Prelude/Tests.antt =====
-- Boolean tests, the conditional, and case lemmas.
use Prim.Native.Nat.{ℕ, compare, Ordering}
use mathlib.Core.Path.{◌≡◌, refl}
use mathlib.Core.Logic.{◌⊎◌, inl, inr}
use mathlib.Core.Bool.{Bool, true, false}
use mathlib.Core.Option.{Option, none, some}

abbrev pub ltb : ℕ → ℕ → Bool
ltb a b = elim (compare a b) [ Ordering.lt ↦ true | _ ↦ false ]

abbrev pub leb : ℕ → ℕ → Bool
leb a b = elim (compare a b) [ Ordering.gt ↦ false | _ ↦ true ]

abbrev pub eqb : ℕ → ℕ → Bool
eqb a b = elim (compare a b) [ Ordering.eq ↦ true | _ ↦ false ]

infix 1 if◌then◌else◌
abbrev pub if◌then◌else◌ {ℓ} : {A : Type ℓ} → Bool → A → A → A
if true then x else y = x
if false then x else y = y

infixr 35 ◌&&◌
abbrev pub ◌&&◌ : Bool → Bool → Bool
true && b = b
false && b = false

infixr 30 ◌||◌
abbrev pub ◌||◌ : Bool → Bool → Bool
true || b = true
false || b = b

abbrev pub not : Bool → Bool
not true = false
not false = true

pub Bool-cases : (b : Bool) → (b ≡ true) ⊎ (b ≡ false)
Bool-cases true = inl refl
Bool-cases false = inr refl

pub Option-cases {ℓ} : {A : Type ℓ} (o : Option A) → (o ≡ none) ⊎ ((a : A) × (o ≡ some a))
Option-cases none = inl refl
Option-cases (some a) = inr (a, refl)

infixl 5 ◌>>=◌
abbrev pub ◌>>=◌ {ℓ κ} : {A : Type ℓ} {B : Type κ} → Option A → (A → Option B) → Option B
none >>= k = none
some a >>= k = k a

-- Inversion of a successful bind.
pub >>=-eq-some {ℓ κ} :
    {S : Type ℓ} {T : Type κ} (first : Option S) (next : S → Option T) {last : T}
    → (first >>= next) ≡ some last
    → (mid : S) × (first ≡ some mid) × (next mid ≡ some last)
>>=-eq-some (some mid) next h = (mid, refl, h)
>>=-eq-some none next h = cc

-- `if (!test) return early`, and what follows.
abbrev pub unless {ℓ} : {A : Type ℓ} → Bool → A → A → A
unless true early rest = rest
unless false early rest = early
