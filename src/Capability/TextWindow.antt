-- ===== src/Capability/TextWindow.antt =====
-- src/ctx_weft/core/capabilities/_text_window.py: the window of characters of a text. A text is the list
-- of its code points; a window is what is shown and where to go on, of which the source makes one
-- string with a hint in words.
pub mod Paging
use ctx_weft.Base.{
  ℕ, ◌+◌, min, Option, none, some, Bool, List, length, take, drop, ltb, leb, if◌then◌else◌,
}

pub data CharWindow : Type 0 where
  -- the offset and the length of the text
  beyond_end : ℕ → ℕ → CharWindow
  -- what is shown, and the offset to continue at
  shown : List ℕ → Option ℕ → CharWindow

-- `cfg.max_chars if char_limit is None else min(char_limit, cfg.max_chars)`
unfoldable pub window_size : Option ℕ → ℕ → ℕ
window_size none max_chars = max_chars
window_size (some char_limit) max_chars = min char_limit max_chars

unfoldable pub char_window : List ℕ → ℕ → Option ℕ → ℕ → CharWindow
char_window text char_offset char_limit max_chars =
    let size = length text in
    let chunk = take (window_size char_limit max_chars) (drop char_offset text) in
    let end_offset = char_offset + length chunk in
    if leb size char_offset
    then beyond_end char_offset size
    else shown chunk (if ltb end_offset size then some end_offset else none)
