-- ===== src/Base/Text.antt =====
-- Texts that serve as identifiers: the equality test, and Python's `set[str]` as a list.
use Prim.Native.Nat.{ℕ}
use Prim.Native.Char.{code}
use Prim.Native.String.{String}
use mathlib.Core.Path.{◌≡◌, refl}
use mathlib.Core.Bool.{Bool, true, false, not, ◌&&◌, ◌||◌}
use mathlib.Core.List.{List, [], ◌∷◌, ◌++◌}
use native.Mathlib.Omega.{arith}
use ctx_weft.Base.Tests.{if◌then◌else◌}
use ctx_weft.Base.Lists.{select}
pub use text.Mathlib.Text.{◌==◌, starts_with}
pub use text.Mathlib.TextEquality.{eq_iff}
pub use text.Mathlib.TextPositions.{eq_refl}

-- The code points of a text.
abbrev pub codes : String → List ℕ
codes String.[] = []
codes (String.◌∷◌ c s) = code c ∷ codes s

-- `x in xs`
unfoldable pub mem : String → List String → Bool
mem x [] = false
mem x (y ∷ ys) = y == x || mem x ys

-- `xs.add(x)`
unfoldable pub add : String → List String → List String
unfolding mem
add x xs = if mem x xs then xs else xs ++ x ∷ []

-- `xs - ys`
unfoldable pub difference : List String → List String → List String
difference xs ys = select (λ x. not (mem x ys)) xs

-- `xs.discard(x)`
unfoldable pub discard : String → List String → List String
discard x xs = select (λ y. not (y == x)) xs

-- `xs.update(ys)`
unfoldable pub update : List String → List String → List String
update xs [] = xs
update xs (y ∷ ys) = update (add y xs) ys

-- `bool(xs)`
abbrev pub nonempty {ℓ} : {A : Type ℓ} → List A → Bool
nonempty [] = false
nonempty (x ∷ xs) = true

pub mem-append : (x : String) (xs ys : List String) → mem x (xs ++ ys) ≡ (mem x xs || mem x ys)
unfolding mem
mem-append x [] ys = refl
mem-append x (y ∷ xs) ys = ground (arith, mem-append x xs ys)

pub mem-add : (x y : String) (xs : List String) → mem x (add y xs) ≡ (y == x || mem x xs)
unfolding add mem
mem-add x y xs = ground (arith, mem-append x xs (y ∷ []), eq_iff y x)

pub mem-difference :
    (x : String) (xs ys : List String) → mem x (difference xs ys) ≡ (mem x xs && not (mem x ys))
unfolding difference mem
mem-difference x [] ys = refl
mem-difference x (y ∷ xs) ys = ground (arith, mem-difference x xs ys, eq_iff y x)

pub mem-discard :
    (x y : String) (xs : List String) → mem x (discard y xs) ≡ (mem x xs && not (y == x))
unfolding discard mem
mem-discard x y [] = refl
mem-discard x y (z ∷ xs) = ground (arith, mem-discard x y xs, eq_iff z x, eq_iff z y, eq_iff y x)

pub mem-update : (x : String) (xs ys : List String) → mem x (update xs ys) ≡ (mem x xs || mem x ys)
unfolding update mem
mem-update x xs [] = ground arith
mem-update x xs (y ∷ ys) = ground (arith, mem-update x (add y xs) ys, mem-add x y xs)

pub nonempty_of_mem : (x : String) (xs : List String) → mem x xs ≡ true → nonempty xs ≡ true
unfolding mem
nonempty_of_mem x [] h = h
nonempty_of_mem x (y ∷ ys) h = refl

pub mem_of_nonempty : (xs : List String) → nonempty xs ≡ true → (x : String) × (mem x xs ≡ true)
unfolding mem
mem_of_nonempty [] h = cc
mem_of_nonempty (x ∷ xs) h = (x, ground (arith, eq_iff x x))

pub eq-nil_of_mem : (xs : List String) → ((x : String) → mem x xs ≡ false) → xs ≡ []
unfolding mem
eq-nil_of_mem [] h = refl
eq-nil_of_mem (x ∷ xs) h = ground (arith, h x, eq_iff x x)
