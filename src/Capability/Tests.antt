-- ===== src/Capability/Tests.antt =====
-- A text of five characters in windows of two.
use ctx_weft.Base.{ℕ, ◌≡◌, some, List, [], ◌∷◌, drop, arith}
use ctx_weft.Capability.TextWindow.{window_size}
use ctx_weft.Capability.TextWindow.Paging.{read_chars, read_chars-drop}

abbrev hello : List ℕ
hello = b'h' ∷ b'e' ∷ b'l' ∷ b'l' ∷ b'o' ∷ []

read_chars-drop_example : read_chars 6 hello 0 (some 2) 100 ≡ some (drop 0 hello)
unfolding window_size
read_chars-drop_example = read_chars-drop 5 hello 0 (some 2) 100 (omega arith) (omega arith)
