-- ===== src/Task/Verdict.antt =====
-- src/ctx_weft/core/utils/verdict.py: the three verdicts of the observer, and how a word from
-- outside becomes one of them. `strip` and `lower` of Python's `str` work on the code points; `lower`
-- is that of the ASCII letters, the only ones that a verdict's word has, and no other letter's lower
-- case is a letter of such a word.
use ctx_weft.Base.{
  ℕ, ◌+◌, String, ◌≡◌, refl, ◌↔◌, Bool, true, false, ◌&&◌, ◌||◌, List, [], ◌∷◌, map, codes, leb,
  eqb, if◌then◌else◌, arith, nonempty,
}
use ctx_weft.Base.Value.{Value, null, flag, num, negative, text, list, dict}

pub data Verdict : Type 0 where
  success continue fail : Verdict

unfoldable pub verdict_word : Verdict → String
verdict_word success = "success"
verdict_word continue = "continue"
verdict_word fail = "fail"

-- The white space that `str.strip` takes off.
unfoldable pub is_space : ℕ → Bool
is_space c =
    (leb 9 c && leb c 13)
    || (leb 28 c && leb c 32)
    || eqb c 0x85
    || eqb c 0xa0
    || eqb c 0x1680
    || (leb 0x2000 c && leb c 0x200a)
    || eqb c 0x2028
    || eqb c 0x2029
    || eqb c 0x202f
    || eqb c 0x205f
    || eqb c 0x3000

unfoldable pub strip_left : List ℕ → List ℕ
unfolding is_space
strip_left [] = []
strip_left (c ∷ cs) = let rest = strip_left cs in if is_space c then rest else c ∷ cs

unfoldable pub strip_right : List ℕ → List ℕ
unfolding is_space
strip_right [] = []
strip_right (c ∷ cs) =
    let rest = strip_right cs in
    if nonempty rest then c ∷ rest else if is_space c then [] else c ∷ []

unfoldable pub lower : ℕ → ℕ
lower c = if leb b'A' c && leb c b'Z' then c + 32 else c

-- `raw.strip().lower()`
unfoldable pub clean : String → List ℕ
unfolding strip_left strip_right lower
clean s = map lower (strip_right (strip_left (codes s)))

unfoldable pub same_codes : List ℕ → List ℕ → Bool
same_codes [] [] = true
same_codes (c ∷ cs) (d ∷ ds) = eqb c d && same_codes cs ds
same_codes _ _ = false

-- The choice among `VERDICTS` and `_ALIASES`, on a cleaned text.
unfoldable pub verdict_of : List ℕ → Verdict
verdict_of value =
    if same_codes value (codes "success")
    then success
    else if same_codes value (codes "continue")
    then continue
    else if same_codes value (codes "fail")
    then fail
    else continue

unfoldable pub normalize_verdict : Value → Verdict
unfolding clean verdict_of same_codes
normalize_verdict (text s) = verdict_of (clean s)
normalize_verdict null = continue
normalize_verdict (flag b) = continue
normalize_verdict (num n) = continue
normalize_verdict (negative n) = continue
normalize_verdict (list xs) = continue
normalize_verdict (dict d) = continue

same_codes_eq : (cs ds : List ℕ) → same_codes cs ds ≡ true → cs ≡ ds
unfolding same_codes
same_codes_eq [] [] h = refl
same_codes_eq (c ∷ cs) (d ∷ ds) h = ground (arith, same_codes_eq cs ds)
same_codes_eq [] (d ∷ ds) h = cc
same_codes_eq (c ∷ cs) [] h = cc

same_codes_refl : (cs : List ℕ) → same_codes cs cs ≡ true
unfolding same_codes
same_codes_refl [] = refl
same_codes_refl (c ∷ cs) = ground (arith, same_codes_refl cs)

-- A verdict's own word, from whatever source it comes back, is read as that verdict.
pub normalize_verdict-verdict_word : (v : Verdict) → normalize_verdict (text (verdict_word v)) ≡ v
unfolding normalize_verdict verdict_word
normalize_verdict-verdict_word success = refl
normalize_verdict-verdict_word continue = refl
normalize_verdict-verdict_word fail = refl

verdict_of-fail : (value : List ℕ) → verdict_of value ≡ fail → value ≡ codes "fail"
unfolding verdict_of
verdict_of-fail value h = same_codes_eq value (codes "fail") (ground arith)

verdict_of-fail_self : (value : List ℕ) → value ≡ codes "fail" → verdict_of value ≡ fail
unfolding verdict_of same_codes
verdict_of-fail_self value h = rw h

-- A verdict is `fail` exactly when the value is a text whose word, without the white space around it
-- and in lower case, is "fail": an unknown word, the alias "retry", a number, a list, an object or a
-- missing value never is.
normalize_verdict-fail_iff :
    (raw : Value)
    → (normalize_verdict raw ≡ fail) ↔ ((s : String) × (raw ≡ text s) × (clean s ≡ codes "fail"))
normalize_verdict-fail_iff raw = (
  only_word raw,
  λ (s, is_text, word).
      rw is_text (unfold normalize_verdict in verdict_of-fail_self (clean s) word),
)
  where
    only_word :
        (raw : Value)
        → normalize_verdict raw ≡ fail
        → (s : String) × (raw ≡ text s) × (clean s ≡ codes "fail")
    only_word (text s) h = (s, refl, verdict_of-fail (clean s) (unfold normalize_verdict in h))
    only_word null h = absurd (unfold normalize_verdict in cc h)
    only_word (flag b) h = absurd (unfold normalize_verdict in cc h)
    only_word (num n) h = absurd (unfold normalize_verdict in cc h)
    only_word (negative n) h = absurd (unfold normalize_verdict in cc h)
    only_word (list xs) h = absurd (unfold normalize_verdict in cc h)
    only_word (dict d) h = absurd (unfold normalize_verdict in cc h)
