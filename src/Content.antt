-- ===== src/Content.antt =====
-- src/ctx_weft/core/utils/content.py and the parts of protocols/context.py: a message is a text or a list
-- of parts; `None` is allowed where the source allows it.
pub mod Json
use ctx_weft.Base.{ℕ, String, Option, List}

pub data ContentPart : Type 0 where
  text_part : String → ContentPart
  -- data, media type, source type, size in bytes
  image_part : String → String → String → Option ℕ → ContentPart

pub data Content : Type 0 where
  no_content : Content
  plain : String → Content
  parts : List ContentPart → Content
