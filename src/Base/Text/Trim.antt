-- ===== src/Base/Text/Trim.antt =====
-- A text without space at its ends stays what it is when it is trimmed again.
use stackable_odbc_trino.Base.Tests.{if◌then◌else◌}
use stackable_odbc_trino.Base.Text.{Text}
use stackable_odbc_trino.Base.Text.Space.{is_whitespace, trim_start, keep_last, trim_end, trim}
use Prim.Native.Nat.{ℕ}
use mathlib.Core.Path.{◌≡◌, refl, sym, ap, ◌∙◌}
use mathlib.Core.Bool.{Bool, true, false}
use mathlib.Core.List.{[], ◌∷◌}

keep_last_settled :
    (w : Bool) (c : ℕ) (t : Text)
    → is_whitespace c ≡ w
    → trim_end t ≡ t
    → trim_end (keep_last w c t) ≡ keep_last w c t
unfolding trim_end
keep_last_settled true c [] h e = refl
keep_last_settled false c [] h e = ap (λ w. keep_last w c []) h
keep_last_settled true c (d ∷ t) h e =
    ap (keep_last (is_whitespace c) c) e ∙ ap (λ w. keep_last w c (d ∷ t)) h
keep_last_settled false c (d ∷ t) h e =
    ap (keep_last (is_whitespace c) c) e ∙ ap (λ w. keep_last w c (d ∷ t)) h

trim_end-trim_end : (s : Text) → trim_end (trim_end s) ≡ trim_end s
unfolding trim_end
trim_end-trim_end [] = refl
trim_end-trim_end (c ∷ s) =
    keep_last_settled (is_whitespace c) c (trim_end s) refl (trim_end-trim_end s)

kept_start :
    (c : ℕ) (t : Text)
    → is_whitespace c ≡ false
    → trim_start (keep_last false c t) ≡ keep_last false c t
unfolding trim_start
kept_start c [] h = rw h refl
kept_start c (d ∷ t) h = rw h refl

trim_start-trim_end : (s : Text) → trim_start (trim_end (trim_start s)) ≡ trim_end (trim_start s)
unfolding trim_start trim_end
trim_start-trim_end [] = refl
trim_start-trim_end (c ∷ s) = first (is_whitespace c) refl (trim_start-trim_end s)
  where
    first :
        (w : Bool)
        → is_whitespace c ≡ w
        → trim_start (trim_end (trim_start s)) ≡ trim_end (trim_start s)
        → trim_start (trim_end (if w then trim_start s else c ∷ s))
          ≡ trim_end (if w then trim_start s else c ∷ s)
    first true h e = e
    first false h e =
        ap (λ w. trim_start (keep_last w c (trim_end s))) h
        ∙ kept_start c (trim_end s) h
        ∙ sym (ap (λ w. keep_last w c (trim_end s)) h)

-- Trimming twice is trimming once.
pub trim-trim : (s : Text) → trim (trim s) ≡ trim s
unfolding trim
trim-trim s = ap trim_end (trim_start-trim_end s) ∙ trim_end-trim_end (trim_start s)
