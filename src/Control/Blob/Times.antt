-- ===== src/Control/Blob/Times.antt =====
-- `isoformat` and `fromisoformat` of Python's `datetime`, and the helpers `_dt` over them.
use ctx_weft.Base.{ℕ, String, ◌≡◌, refl, Option, none, some, false, ◌==◌, ◌>>=◌, if◌then◌else◌}
use ctx_weft.Base.Value.{Value, null, text}

pub record Times : Type 0 where
  pub isoformat : ℕ → String
  -- none is the exception for a text that is no time
  pub fromisoformat : String → Option ℕ

-- What the documentation says of them: a time that is written is read back, and is not empty.
pub record IsTimes (times : Times) : Type 0 where
  pub read_back : (t : ℕ) → times.fromisoformat (times.isoformat t) ≡ some t
  pub not_empty : (t : ℕ) → (times.isoformat t == "") ≡ false

module _ (times : Times) where
  -- `_dt` of the writer
  unfoldable pub write_time : Option ℕ → Value
  write_time none = null
  write_time (some t) = text (times.isoformat t)

  unfoldable pub parse_time : String → Option (Option ℕ)
  parse_time s = if s == "" then some none else (times.fromisoformat s >>= λ t. some (some t))

  -- `_dt` of the reader, on `s.get(key)`
  unfoldable pub read_time : Option Value → Option (Option ℕ)
  unfolding parse_time
  read_time none = some none
  read_time (some null) = some none
  read_time (some (text s)) = parse_time s
  read_time (some _) = none

  pub read_time-write_time :
      IsTimes times → (t : Option ℕ) → read_time (some (write_time t)) ≡ some t
  unfolding read_time write_time parse_time
  read_time-write_time ok none = refl
  read_time-write_time ok (some t) = rw (ok.not_empty t, ok.read_back t) refl
