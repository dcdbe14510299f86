-- ===== src/Base/Value/Equality.antt =====
-- Dynamic values, the reads of a value that the source makes, and Python's `==` on them: a
-- Boolean is equal to its number, and two dictionaries are equal when they have the same keys with equal values, in whatever order.
use Prim.Native.Nat.{ℕ}
use Prim.Native.String.{String}
use mathlib.Core.Path.{◌≡◌, refl}
use mathlib.Core.Bool.{Bool, true, false, not, ◌&&◌, ◌||◌}
use mathlib.Core.Option.{Option, none, some}
use mathlib.Core.List.{List, [], ◌∷◌}
use native.Mathlib.Omega.{arith}
use ctx_weft.Base.{◌==◌, eq_iff, eqb, if◌then◌else◌, is_some, and_parts}
use ctx_weft.Base.Dict.{Dict}

mutual
  pub data Value : Type 0 where
    null : Value
    flag : Bool → Value
    num : ℕ → Value
    -- `negative n` is -(n + 1)
    negative : ℕ → Value
    text : String → Value
    list : Items → Value
    dict : Fields → Value

  -- The pairs of a dictionary, in the order of insertion.
  pub data Fields : Type 0 where
    field : String → Value → Fields → Fields
    end : Fields

  pub data Items : Type 0 where
    cons : Value → Items → Items
    nil : Items

-- A payload of an event: a dictionary of values.
abbrev pub Payload : Type 0
Payload = Dict Value

-- `list(xs)` of texts, as a value
unfoldable pub texts : List String → Items
texts [] = nil
texts (x ∷ xs) = cons (text x) (texts xs)

-- A payload as a value
unfoldable pub to_fields : Payload → Fields
to_fields [] = end
to_fields ((k, v) ∷ rest) = field k v (to_fields rest)

-- `fs.get(k)`
unfoldable pub find : String → Fields → Option Value
find k end = none
find k (field j v fs) = if j == k then some v else find k fs

-- `(v or {}).get(k)`, for a value that is a dictionary or empty
unfoldable pub field_at : String → Value → Value
unfolding find
field_at k (dict fs) = elim (find k fs) [ none ↦ null | some v ↦ v ]
field_at k _ = null

-- `v == s` for a text `s`
unfoldable pub is_text : String → Value → Bool
is_text s (text t) = t == s
is_text s _ = false

unfoldable pub in_items : String → Items → Bool
unfolding is_text
in_items s nil = false
in_items s (cons v vs) = is_text s v || in_items s vs

-- `s in (v or [])`, for a value that is a list, a dictionary or empty
unfoldable pub contains : String → Value → Bool
unfolding in_items find
contains s (list vs) = in_items s vs
contains s (dict fs) = is_some (find s fs)
contains s _ = false

-- Every key of the first dictionary is in the second.
unfoldable pub fewer : Fields → Fields → Bool
unfolding find
fewer end gs = true
fewer (field k v fs) gs = is_some (find k gs) && fewer fs gs

-- The test of a value that may be missing.
abbrev pub found_by : (Value → Bool) → Option Value → Bool
found_by p none = false
found_by p (some w) = p w

unfoldable mutual
  unfolding fewer find

  pub same_value : Value → Value → Bool
  same_value null null = true
  same_value (flag true) (flag true) = true
  same_value (flag false) (flag false) = true
  same_value (flag true) (num n) = eqb n 1
  same_value (flag false) (num n) = eqb n 0
  same_value (num n) (flag true) = eqb n 1
  same_value (num n) (flag false) = eqb n 0
  same_value (num m) (num n) = eqb m n
  same_value (negative m) (negative n) = eqb m n
  same_value (text s) (text t) = s == t
  same_value (list xs) (list ys) = same_items xs ys
  same_value (dict fs) (dict gs) = covered fs gs && fewer gs fs
  same_value _ _ = false

  pub same_items : Items → Items → Bool
  same_items nil nil = true
  same_items (cons x xs) (cons y ys) = same_value x y && same_items xs ys
  same_items _ _ = false

  -- Every field of the first dictionary is in the second, with an equal value.
  pub covered : Fields → Fields → Bool
  covered end gs = true
  covered (field k v fs) gs = found_by (same_value v) (find k gs) && covered fs gs

-- No dictionary inside has a key twice, as no dictionary of Python's has.
unfoldable mutual
  unfolding find

  pub is_proper : Value → Bool
  is_proper (list xs) = proper_items xs
  is_proper (dict fs) = proper_fields fs
  is_proper _ = true

  pub proper_items : Items → Bool
  proper_items nil = true
  proper_items (cons x xs) = is_proper x && proper_items xs

  pub proper_fields : Fields → Bool
  proper_fields end = true
  proper_fields (field k v fs) = not (is_some (find k fs)) && (is_proper v && proper_fields fs)

-- Every field of `fs` is what `gs` has under its key.
abbrev Within : Fields → Fields → Type 0
Within end gs = Unit {0}
Within (field k v fs) gs = (find k gs ≡ some v) × Within fs gs

-- A key that `fs` lacks hides none of its fields.
Within-field :
    (k : String) (v : Value) (fs gs : Fields)
    → find k fs ≡ none
    → Within fs gs
    → Within fs (field k v gs)
unfolding find
Within-field k v end gs h w = tt
Within-field k v (field j x fs) gs h w =
    (ground (arith, eq_iff k j, eq_iff j k), Within-field k v fs gs (ground arith) w.1)

found_first : (k : String) (v : Value) (fs : Fields) → find k (field k v fs) ≡ some v
unfolding find
found_first k v fs = rw ((eq_iff k k).1 refl)

none_of_not_some {ℓ} : {A : Type ℓ} (o : Option A) → not (is_some o) ≡ true → o ≡ none
none_of_not_some none h = refl
none_of_not_some (some a) h = cc

Within-self : (fs : Fields) → proper_fields fs ≡ true → Within fs fs
unfolding proper_fields
Within-self end h = tt
Within-self (field k v fs) h =
    let (fresh, rest) = and_parts (not (is_some (find k fs))) (is_proper v && proper_fields fs) h in
    let (p, q) = and_parts (is_proper v) (proper_fields fs) rest in
    (
      found_first k v fs,
      Within-field k v fs fs (none_of_not_some (find k fs) fresh) (Within-self fs q),
    )

fewer_of_Within : (fs gs : Fields) → Within fs gs → fewer fs gs ≡ true
unfolding fewer
fewer_of_Within end gs w = refl
fewer_of_Within (field k v fs) gs w = rw (w.0) (fewer_of_Within fs gs w.1)

mutual
  unfolding same_value is_proper

  same_self : (v : Value) → is_proper v ≡ true → same_value v v ≡ true
  same_self null h = refl
  same_self (flag true) h = refl
  same_self (flag false) h = refl
  same_self (num n) h = ground arith
  same_self (negative n) h = ground arith
  same_self (text s) h = (eq_iff s s).1 refl
  same_self (list xs) h = same_items_self xs h
  same_self (dict fs) h =
      let w = Within-self fs h in ground (arith, covered_self fs fs w h, fewer_of_Within fs fs w)

  same_items_self : (xs : Items) → proper_items xs ≡ true → same_items xs xs ≡ true
  same_items_self nil h = refl
  same_items_self (cons x xs) h =
      let (p, q) = and_parts (is_proper x) (proper_items xs) h in
      ground (arith, same_self x p, same_items_self xs q)

  covered_self : (fs gs : Fields) → Within fs gs → proper_fields fs ≡ true → covered fs gs ≡ true
  covered_self end gs w h = refl
  covered_self (field k v fs) gs w h =
      let (_, rest) = and_parts (not (is_some (find k fs))) (is_proper v && proper_fields fs) h in
      let (p, q) = and_parts (is_proper v) (proper_fields fs) rest in
      rw (w.0) (ground (arith, same_self v p, covered_self fs gs w.1 q))

-- A value is equal to itself.
pub same_value_self : (v : Value) → is_proper v ≡ true → same_value v v ≡ true
same_value_self v h = same_self v h
