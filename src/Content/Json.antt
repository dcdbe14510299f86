-- ===== src/Content/Json.antt =====
-- src/ctx_weft/core/utils/content.py: content as JSON, and back.
use ctx_weft.Base.{
  ℕ, String, ◌≡◌, refl, Option, none, some, List, [], ◌∷◌, ◌++◌, ◌==◌, ◌>>=◌, if◌then◌else◌,
}
use ctx_weft.Base.Value.{
  Value, Items, Fields, Payload, null, num, text, list, dict, nil, cons, to_fields, find,
}
use ctx_weft.Base.Value.Reading.{as_text}
use ctx_weft.Content.{ContentPart, text_part, image_part, Content, no_content, plain, parts}

-- The key `byte_size`, which is written where there is a size.
unfoldable pub size_entry : Option ℕ → Payload
size_entry none = []
size_entry (some n) = ("byte_size", num n) ∷ []

unfoldable pub part_to_jsonable : ContentPart → Value
unfolding to_fields size_entry
part_to_jsonable (text_part s) = dict (to_fields (("type", text "text") ∷ ("text", text s) ∷ []))
part_to_jsonable (image_part data_text media_type source_type byte_size) = dict (
    to_fields (
      ("type", text "image")
      ∷ ("data", text data_text)
      ∷ ("media_type", text media_type)
      ∷ ("source_type", text source_type)
      ∷ size_entry byte_size))

unfoldable pub parts_to_jsonable : List ContentPart → Items
unfolding part_to_jsonable
parts_to_jsonable [] = nil
parts_to_jsonable (p ∷ ps) = cons (part_to_jsonable p) (parts_to_jsonable ps)

unfoldable pub content_to_jsonable : Content → Value
unfolding parts_to_jsonable
content_to_jsonable no_content = null
content_to_jsonable (plain s) = text s
content_to_jsonable (parts ps) = list (parts_to_jsonable ps)

-- `item.get("byte_size")`
unfoldable pub as_size : Option Value → Option (Option ℕ)
as_size none = some none
as_size (some null) = some none
as_size (some (num n)) = some (some n)
as_size (some _) = none

-- One item of the list: none where the source raises, an empty list where it skips the item.
unfoldable pub part_of_kind : String → Fields → Option (List ContentPart)
unfolding find as_text as_size
part_of_kind kind fs =
    if kind == "text"
    then (as_text "" (find "text" fs) >>= λ s. some (text_part s ∷ []))
    else if kind == "image"
    then (as_text "" (find "data" fs) >>= λ data_text.
        as_text "" (find "media_type" fs) >>= λ media_type.
        as_text "base64" (find "source_type" fs) >>= λ source_type.
        as_size (find "byte_size" fs) >>= λ byte_size.
        some (image_part data_text media_type source_type byte_size ∷ []))
    else some []

unfoldable pub part_from_jsonable : Value → Option (List ContentPart)
unfolding part_of_kind find
part_from_jsonable (dict fs) = elim (find "type" fs) [
  | some (text kind) ↦ part_of_kind kind fs
  | _ ↦ some []
]
part_from_jsonable _ = none

unfoldable pub parts_from_jsonable : Items → Option (List ContentPart)
unfolding part_from_jsonable
parts_from_jsonable nil = some []
parts_from_jsonable (cons v vs) =
    part_from_jsonable v >>= λ p. parts_from_jsonable vs >>= λ rest. some (p ++ rest)

unfoldable pub content_from_jsonable : Value → Option Content
unfolding parts_from_jsonable
content_from_jsonable null = some no_content
content_from_jsonable (text s) = some (plain s)
content_from_jsonable (list vs) = parts_from_jsonable vs >>= λ ps. some (parts ps)
content_from_jsonable _ = none

part_from_jsonable-part_to_jsonable :
    (p : ContentPart) → part_from_jsonable (part_to_jsonable p) ≡ some (p ∷ [])
unfolding part_from_jsonable part_to_jsonable
part_from_jsonable-part_to_jsonable (text_part s) = refl
part_from_jsonable-part_to_jsonable (image_part a b c none) = refl
part_from_jsonable-part_to_jsonable (image_part a b c (some n)) = refl

parts_from_jsonable-parts_to_jsonable :
    (ps : List ContentPart) → parts_from_jsonable (parts_to_jsonable ps) ≡ some ps
unfolding parts_from_jsonable parts_to_jsonable
parts_from_jsonable-parts_to_jsonable [] = refl
parts_from_jsonable-parts_to_jsonable (p ∷ ps) =
    rw (part_from_jsonable-part_to_jsonable p, parts_from_jsonable-parts_to_jsonable ps) refl

-- Content that is written as JSON is read back as it was: texts, parts and their optional sizes.
pub content_from_jsonable-content_to_jsonable :
    (c : Content) → content_from_jsonable (content_to_jsonable c) ≡ some c
unfolding content_from_jsonable content_to_jsonable
content_from_jsonable-content_to_jsonable no_content = refl
content_from_jsonable-content_to_jsonable (plain s) = refl
content_from_jsonable-content_to_jsonable (parts ps) =
    rw (parts_from_jsonable-parts_to_jsonable ps) refl
