-- ===== src/Capability/TextWindow/Paging.antt =====
-- A reader that follows the hints of the windows sees the whole text.
use ctx_weft.Base.{
  ℕ, zero, suc, ◌+◌, ◌-◌, ◌≤◌, ◌<◌, min, ◌≡◌, refl, sym, ap, ◌∙◌, Option, none, some, List, [], ◌∷◌,
  ◌++◌, length, take, drop, ltb, leb, take-append-drop, length-take, length-drop, append-nil,
  Bool-cases, inl, inr, arith,
}
use ctx_weft.Capability.TextWindow.{CharWindow, beyond_end, shown, window_size, char_window}

-- What is read from one window on; `read` reads from an offset on.
continue_from : CharWindow → (ℕ → Option (List ℕ)) → Option (List ℕ)
continue_from (beyond_end offset size) read = some []
continue_from (shown chunk none) read = some chunk
continue_from (shown chunk (some next)) read = elim (read next) [
  | none ↦ none
  | some rest ↦ some (chunk ++ rest)
]

-- A reader that follows the hints, in so many windows; none when these are not enough.
unfoldable pub read_chars : ℕ → List ℕ → ℕ → Option ℕ → ℕ → Option (List ℕ)
unfolding continue_from
read_chars zero text char_offset char_limit max_chars = none
read_chars (suc windows) text char_offset char_limit max_chars =
    continue_from (char_window text char_offset char_limit max_chars)
      (λ next. read_chars windows text next char_limit max_chars)

drop_nothing : (n : ℕ) → drop {A = ℕ} n [] ≡ []
drop_nothing zero = refl
drop_nothing (suc n) = refl

drop-drop : (a b c : ℕ) (xs : List ℕ) → c ≡ a + b → drop b (drop a xs) ≡ drop c xs
drop-drop zero b c xs e = ap (λ n. drop n xs) (omega arith)
drop-drop (suc a) b zero xs e = absurd (omega arith)
drop-drop (suc a) b (suc c) [] e = drop_nothing b
drop-drop (suc a) b (suc c) (x ∷ xs) e = drop-drop a b c xs (omega arith)

drop-nil : (a : ℕ) (xs : List ℕ) → length xs ≤ a → drop a xs ≡ []
drop-nil zero [] h = refl
drop-nil zero (x ∷ xs) h = ground arith
drop-nil (suc a) [] h = refl
drop-nil (suc a) (x ∷ xs) h = drop-nil a xs (omega arith)

module _ (text : List ℕ) (char_offset : ℕ) (char_limit : Option ℕ) (max_chars : ℕ) where
  abbrev chunk : List ℕ
  chunk = take (window_size char_limit max_chars) (drop char_offset text)

  length-chunk : length chunk ≡ min (window_size char_limit max_chars) (length text - char_offset)
  length-chunk =
      length-take (window_size char_limit max_chars) (drop char_offset text)
      ∙ ap (min (window_size char_limit max_chars)) (length-drop char_offset text)

  past_end :
      length text ≤ char_offset
      → char_window text char_offset char_limit max_chars ≡ beyond_end char_offset (length text)
  unfolding char_window
  past_end h = ground arith

  last_window :
      char_offset < length text
      → length text ≤ char_offset + length chunk
      → char_window text char_offset char_limit max_chars ≡ shown chunk none
  unfolding char_window
  last_window h k = ground arith

  inner_window :
      char_offset + length chunk < length text
      → char_window text char_offset char_limit max_chars
        ≡ shown chunk (some (char_offset + length chunk))
  unfolding char_window
  inner_window h = ground arith

  last_chunk : length text ≤ char_offset + length chunk → chunk ≡ drop char_offset text
  last_chunk h =
      sym (append-nil chunk)
      ∙ ap (λ l. chunk ++ l)
          (sym (
            drop-nil (window_size char_limit max_chars) (drop char_offset text)
              (omega (arith, length-chunk, length-drop char_offset text))))
      ∙ take-append-drop (window_size char_limit max_chars) (drop char_offset text)

  inner_chunk :
      char_offset + length chunk < length text
      → chunk ++ drop (char_offset + length chunk) text ≡ drop char_offset text
  inner_chunk h =
      ap (λ l. chunk ++ l)
        (sym (
          drop-drop char_offset (window_size char_limit max_chars) (char_offset + length chunk) text
            (omega (arith, length-chunk))))
      ∙ take-append-drop (window_size char_limit max_chars) (drop char_offset text)

read_chars-step :
    (windows : ℕ) (text : List ℕ) (o : ℕ) (l : Option ℕ) (m : ℕ)
    → (o + length (chunk text o l m) < length text
        → read_chars windows text (o + length (chunk text o l m)) l m
          ≡ some (drop (o + length (chunk text o l m)) text))
    → read_chars (suc windows) text o l m ≡ some (drop o text)
unfolding read_chars continue_from
read_chars-step windows text o l m rest = elim (Bool-cases (leb (length text) o)) [
  | inl past ↦
      ap (λ w. continue_from w (λ next. read_chars windows text next l m))
        (past_end text o l m (ground arith))
      ∙ ap some (sym (drop-nil o text (ground arith)))
  | inr inside ↦ elim (Bool-cases (ltb (o + length (chunk text o l m)) (length text))) [
    | inr ends ↦
        ap (λ w. continue_from w (λ next. read_chars windows text next l m))
          (last_window text o l m (ground arith) (ground arith))
        ∙ ap some (last_chunk text o l m (ground arith))
    | inl more ↦
        ap (λ w. continue_from w (λ next. read_chars windows text next l m))
          (inner_window text o l m (ground arith))
        ∙ ap (λ r. elim r [ none ↦ none | some rest ↦ some (chunk text o l m ++ rest) ])
            (rest (ground arith))
        ∙ ap some (inner_chunk text o l m (ground arith))
  ]
]

-- Following the hints from any offset on reads exactly the rest of the text, in order and without a gap
-- or an overlap, and ends after at most one window for each character left and one more, whatever the
-- limit is, if a window has at least one character.
pub read_chars-drop :
    (windows : ℕ) (text : List ℕ) (char_offset : ℕ) (char_limit : Option ℕ) (max_chars : ℕ)
    → 1 ≤ window_size char_limit max_chars
    → length text ≤ char_offset + windows
    → read_chars (suc windows) text char_offset char_limit max_chars ≡ some (drop char_offset text)
read_chars-drop zero text o l m wide enough =
    read_chars-step zero text o l m (λ more. absurd (omega (arith, more)))
read_chars-drop (suc windows) text o l m wide enough =
    read_chars-step (suc windows) text o l m (λ more.
      read_chars-drop windows text (o + length (chunk text o l m)) l m wide
        (omega (arith, length-chunk text o l m, more)))
