-- ===== src/Base/Value/Reading.antt =====
-- Typed reads of a dictionary, with the default of `d.get(key, default)`. None is a value of another
-- type than the source writes there, which it would carry on with.
use Prim.Native.Nat.{ℕ}
use Prim.Native.String.{String}
use mathlib.Core.Path.{◌≡◌, refl}
use mathlib.Core.Bool.{Bool, true, false, not}
use mathlib.Core.Option.{Option, none, some}
use mathlib.Core.List.{List, [], ◌∷◌}
use ctx_weft.Base.{◌>>=◌, ◌==◌, ltb, if◌then◌else◌}
use ctx_weft.Base.Dict.{Dict, map_values}
use ctx_weft.Base.Value.{
  Value, Items, Fields, null, flag, num, negative, text, list, dict, nil, cons, field, end, texts,
  to_fields, find,
}

unfoldable pub as_text : String → Option Value → Option String
as_text default none = some default
as_text default (some (text s)) = some s
as_text default (some _) = none

unfoldable pub as_num : ℕ → Option Value → Option ℕ
as_num default none = some default
as_num default (some (num n)) = some n
as_num default (some _) = none

unfoldable pub as_flag : Bool → Option Value → Option Bool
as_flag default none = some default
as_flag default (some (flag b)) = some b
as_flag default (some _) = none

-- A text, or null where there is none.
unfoldable pub as_optional : Option Value → Option (Option String)
as_optional none = some none
as_optional (some null) = some none
as_optional (some (text s)) = some (some s)
as_optional (some _) = none

unfoldable pub as_dict : Option Value → Option Fields
as_dict none = some end
as_dict (some null) = some end
as_dict (some (dict fs)) = some fs
as_dict (some _) = none

unfoldable pub of_items : Items → Option (List String)
of_items nil = some []
of_items (cons (text s) vs) = of_items vs >>= λ rest. some (s ∷ rest)
of_items (cons _ vs) = none

unfoldable pub as_texts : Option Value → Option (List String)
unfolding of_items
as_texts none = some []
as_texts (some (list vs)) = of_items vs
as_texts (some _) = none

unfoldable pub as_value : Value → Option Value → Value
as_value default none = default
as_value default (some v) = v

-- `p.get(key) or ""`, for a text
unfoldable pub text_or_empty : Option Value → Option String
text_or_empty none = some ""
text_or_empty (some null) = some ""
text_or_empty (some (text s)) = some s
text_or_empty (some _) = none

-- `bool(v)`
unfoldable pub truthy : Value → Bool
truthy null = false
truthy (flag b) = b
truthy (num n) = ltb 0 n
truthy (negative _) = true
truthy (text s) = not (s == "")
truthy (list nil) = false
truthy (list _) = true
truthy (dict end) = false
truthy (dict _) = true

-- `v or ""`
unfoldable pub or_empty_text : Value → Value
or_empty_text null = text ""
or_empty_text (flag b) = if b then flag b else text ""
or_empty_text (num n) = if ltb 0 n then num n else text ""
or_empty_text (negative n) = negative n
or_empty_text (text s) = text s
or_empty_text (list nil) = text ""
or_empty_text (list vs) = list vs
or_empty_text (dict end) = text ""
or_empty_text (dict fs) = dict fs

-- `v or None`
unfoldable pub or_null : Value → Value
unfolding truthy
or_null v = if truthy v then v else null

-- `s[key]`
unfoldable pub required_text : String → Fields → Option String
unfolding find
required_text key fs = elim (find key fs) [ some (text s) ↦ some s | _ ↦ none ]

-- A value that is a dictionary, for the reader of its fields.
unfoldable pub of_dict {ℓ} : {A : Type ℓ} → (Fields → Option A) → Value → Option A
of_dict read (dict fs) = read fs
of_dict read _ = none

-- A text, or null where there is none, as it is written.
unfoldable pub optional_text : Option String → Value
optional_text none = null
optional_text (some s) = text s

-- `{k: f(v) for k, v in m.items()}`, as a value
unfoldable pub map_fields {ℓ} : {A : Type ℓ} → (A → Value) → Dict A → Fields
map_fields f [] = end
map_fields f ((k, v) ∷ m) = field k (f v) (map_fields f m)

-- The same backwards, where `f` may have no result.
unfoldable pub read_fields {ℓ} : {A : Type ℓ} → (Value → Option A) → Fields → Option (Dict A)
read_fields f end = some []
read_fields f (field k v fs) = f v >>= λ a. read_fields f fs >>= λ rest. some ((k, a) ∷ rest)

-- `list(vs)`, as a value, and of one
unfoldable pub to_items : List Value → Items
to_items [] = nil
to_items (v ∷ vs) = cons v (to_items vs)

unfoldable pub from_items : Items → List Value
from_items nil = []
from_items (cons v vs) = v ∷ from_items vs

-- `list(d.get(key) or [])`
unfoldable pub as_list : Option Value → Option (List Value)
unfolding from_items
as_list none = some []
as_list (some null) = some []
as_list (some (list vs)) = some (from_items vs)
as_list (some _) = none

-- `dict(v)` of a dictionary
unfoldable pub of_fields : Fields → Dict Value
of_fields end = []
of_fields (field k v fs) = (k, v) ∷ of_fields fs

pub of_fields-to_fields : (d : Dict Value) → of_fields (to_fields d) ≡ d
unfolding of_fields to_fields
of_fields-to_fields [] = refl
of_fields-to_fields ((k, v) ∷ d) = rw (of_fields-to_fields d) refl

pub from_items-to_items : (vs : List Value) → from_items (to_items vs) ≡ vs
unfolding from_items to_items
from_items-to_items [] = refl
from_items-to_items (v ∷ vs) = rw (from_items-to_items vs) refl

pub of_items-texts : (xs : List String) → of_items (texts xs) ≡ some xs
unfolding of_items texts
of_items-texts [] = refl
of_items-texts (x ∷ xs) = rw (of_items-texts xs) refl

pub as_optional-optional_text : (o : Option String) → as_optional (some (optional_text o)) ≡ some o
unfolding as_optional optional_text
as_optional-optional_text none = refl
as_optional-optional_text (some s) = refl

-- What is written entry by entry is read back, if every value is read back up to `g`.
pub read_fields-map_fields {ℓ κ} :
    {A : Type ℓ} {B : Type κ} (f : A → Value) (back : Value → Option B) (g : A → B)
    → ((a : A) → back (f a) ≡ some (g a))
    → (m : Dict A) → read_fields back (map_fields f m) ≡ some (map_values g m)
unfolding read_fields map_fields map_values
read_fields-map_fields f back g one [] = refl
read_fields-map_fields f back g one ((k, a) ∷ m) =
    rw (one a, read_fields-map_fields f back g one m) refl

pub read_fields-map_fields_self {ℓ} :
    {A : Type ℓ} (f : A → Value) (back : Value → Option A)
    → ((a : A) → back (f a) ≡ some a)
    → (m : Dict A) → read_fields back (map_fields f m) ≡ some m
unfolding read_fields map_fields
read_fields-map_fields_self f back one [] = refl
read_fields-map_fields_self f back one ((k, a) ∷ m) =
    rw (one a, read_fields-map_fields_self f back one m) refl
