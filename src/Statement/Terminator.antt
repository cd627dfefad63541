-- ===== src/Statement/Terminator.antt =====
-- `strip_trailing_semicolons`: the statement terminator that an application left on the end.
use stackable_odbc_trino.Base.{
  ℕ, zero, suc, ◌≤◌, ◌≡◌, refl, ap, ◌∙◌, sym, Bool, true, false, ◌||◌, [], ◌∷◌, Option, none, some,
  arith, inl, inr, ◌==◌, if◌then◌else◌, length, Bool-cases, Option-cases,
}
use stackable_odbc_trino.Base.Text.{Text}
use stackable_odbc_trino.Base.Text.Space.{is_whitespace, keep_last, trim_end}

-- `s.strip_suffix(c)`
abbrev cons_text : ℕ → Option Text → Option Text
cons_text d none = none
cons_text d (some t) = some (d ∷ t)

unfoldable pub strip_suffix : ℕ → Text → Option Text
strip_suffix c [] = none
strip_suffix c (d ∷ []) = if d == c then some [] else none
strip_suffix c (d ∷ e ∷ s) = cons_text d (strip_suffix c (e ∷ s))

-- What follows the test for a semicolon at the end.
unfoldable pub strip_next : Option Text → Text → (Text → Text) → Text
strip_next none trimmed k = trimmed
strip_next (some rest) trimmed k = k (trim_end rest)

-- The loop, for at most `fuel` semicolons.
unfoldable pub strip_loop : ℕ → Text → Text
strip_loop zero trimmed = trimmed
strip_loop (suc fuel) trimmed = strip_next (strip_suffix b';' trimmed) trimmed (strip_loop fuel)

-- A text has no more semicolons than characters.
unfoldable pub strip_trailing_semicolons : Text → Text
unfolding strip_loop
strip_trailing_semicolons sql = strip_loop (length sql) (trim_end sql)

abbrev ends_statement : ℕ → Bool
ends_statement c = is_whitespace c || (c == b';')

-- The specification: everything behind the last character that is neither white space nor a
-- semicolon goes.
unfoldable pub trim_terminators : Text → Text
trim_terminators [] = []
trim_terminators (c ∷ s) = keep_last (ends_statement c) c (trim_terminators s)

trim_terminators-keep_last :
    (space : Bool) (c : ℕ) (t : Text)
    → (space ≡ true → ends_statement c ≡ true)
    → trim_terminators (keep_last space c t) ≡ keep_last (ends_statement c) c (trim_terminators t)
unfolding trim_terminators
trim_terminators-keep_last true c [] h = rw (h refl) refl
trim_terminators-keep_last false c [] h = refl
trim_terminators-keep_last true c (d ∷ t) h = refl
trim_terminators-keep_last false c (d ∷ t) h = refl

trim_terminators-trim_end : (s : Text) → trim_terminators (trim_end s) ≡ trim_terminators s
unfolding trim_terminators trim_end
trim_terminators-trim_end [] = refl
trim_terminators-trim_end (c ∷ s) =
    trim_terminators-keep_last (is_whitespace c) c (trim_end s) (λ h. rw h refl)
    ∙ ap (keep_last (ends_statement c) c) (trim_terminators-trim_end s)

cons_text-some :
    (d : ℕ) (o : Option Text) {r : Text}
    → cons_text d o ≡ some r
    → (t : Text) × (o ≡ some t) × (r ≡ d ∷ t)
cons_text-some d none h = cc
cons_text-some d (some t) h = (t, refl, cc)

cons_text-none : (d : ℕ) (o : Option Text) → cons_text d o ≡ none → o ≡ none
cons_text-none d none h = refl
cons_text-none d (some t) h = cc

strip_suffix-trim_terminators :
    (t : Text) {r : Text} → strip_suffix b';' t ≡ some r → trim_terminators t ≡ trim_terminators r
unfolding strip_suffix trim_terminators
strip_suffix-trim_terminators [] h = cc
strip_suffix-trim_terminators (d ∷ []) {r} h = elim (Bool-cases (d == b';')) [
  | inl q ↦ single d r q (simp q at h)
  | inr q ↦ absurd (refused d r q h)
]
  where
    single :
        (d : ℕ) (r : Text)
        → (d == b';') ≡ true
        → ◌≡◌ {A = Option Text} (some []) (some r)
        → keep_last (ends_statement d) d [] ≡ trim_terminators r
    single d r q h =
        let ends : ends_statement d ≡ true = ground arith in
        let empty : [] ≡ r = cc in rw ends (ap trim_terminators empty)

    refused : (d : ℕ) (r : Text) → (d == b';') ≡ false → strip_suffix b';' (d ∷ []) ≡ some r → ⊥
    refused d r q h = ground arith
strip_suffix-trim_terminators (d ∷ e ∷ s) {r} h =
    let (t, n, q) = cons_text-some d (strip_suffix b';' (e ∷ s)) {r = r} h in
    ap (keep_last (ends_statement d) d) (strip_suffix-trim_terminators (e ∷ s) {r = t} n)
    ∙ sym (ap trim_terminators q)

length-keep_last : (b : Bool) (c : ℕ) (t : Text) → length (keep_last b c t) ≤ suc (length t)
length-keep_last true c [] = omega arith
length-keep_last false c [] = omega arith
length-keep_last true c (d ∷ t) = omega arith
length-keep_last false c (d ∷ t) = omega arith

length-trim_end : (s : Text) → length (trim_end s) ≤ length s
unfolding trim_end
length-trim_end [] = omega arith
length-trim_end (c ∷ s) =
    omega (arith, length-keep_last (is_whitespace c) c (trim_end s), length-trim_end s)

trim_end-keep_last :
    (space : Bool) (c : ℕ) (t : Text)
    → is_whitespace c ≡ space
    → trim_end t ≡ t
    → trim_end (keep_last space c t) ≡ keep_last space c t
unfolding trim_end
trim_end-keep_last true c [] h e = refl
trim_end-keep_last false c [] h e = rw h refl
trim_end-keep_last true c (d ∷ t) h e = ap (keep_last (is_whitespace c) c) e
trim_end-keep_last false c (d ∷ t) h e = ap (keep_last (is_whitespace c) c) e

trim_end_twice : (s : Text) → trim_end (trim_end s) ≡ trim_end s
unfolding trim_end
trim_end_twice [] = refl
trim_end_twice (c ∷ s) = trim_end-keep_last (is_whitespace c) c (trim_end s) refl (trim_end_twice s)

length-strip_suffix :
    (c : ℕ) (t : Text) {r : Text} → strip_suffix c t ≡ some r → length t ≡ suc (length r)
unfolding strip_suffix
length-strip_suffix c [] h = cc
length-strip_suffix c (d ∷ []) h = ground arith
length-strip_suffix c (d ∷ e ∷ s) {r} h =
    let (t, n, q) = cons_text-some d (strip_suffix c (e ∷ s)) {r = r} h in
    omega (arith, length-strip_suffix c (e ∷ s) {r = t} n, ap length q)

keep_last_rest :
    (b : Bool) (c : ℕ) (t : Text) (d : ℕ) (s : Text) → keep_last b c t ≡ c ∷ d ∷ s → t ≡ d ∷ s
keep_last_rest true c [] d s h = cc
keep_last_rest false c [] d s h = cc
keep_last_rest true c (x ∷ t) d s h = cc
keep_last_rest false c (x ∷ t) d s h = cc

keep_last_drops : (b : Bool) (c : ℕ) → b ≡ true → keep_last b c [] ≡ c ∷ [] → ⊥
keep_last_drops true c w e = cc
keep_last_drops false c w e = cc

-- A trimmed text with no semicolon at its end stays.
trim_terminators_done :
    (t : Text) → trim_end t ≡ t → strip_suffix b';' t ≡ none → trim_terminators t ≡ t
unfolding trim_terminators trim_end strip_suffix
trim_terminators_done [] e n = refl
trim_terminators_done (c ∷ []) e n = elim (Bool-cases (is_whitespace c)) [
  | inl w ↦ absurd (keep_last_drops (is_whitespace c) c w e)
  | inr w ↦ let stays : ends_statement c ≡ false = ground arith in rw stays refl
]
trim_terminators_done (c ∷ d ∷ s) e n = ap (keep_last (ends_statement c) c) (
    trim_terminators_done (d ∷ s) (keep_last_rest (is_whitespace c) c (trim_end (d ∷ s)) d s e)
      (cons_text-none c (strip_suffix b';' (d ∷ s)) n))

strip_loop_lem :
    (fuel : ℕ) (t : Text)
    → length t ≤ fuel
    → trim_end t ≡ t
    → strip_loop fuel t ≡ trim_terminators t
unfolding strip_loop strip_next
strip_loop_lem zero [] b e = unfold trim_terminators in refl
strip_loop_lem zero (c ∷ t) b e = elim b [ ]
strip_loop_lem (suc fuel) t b e = elim (Option-cases (strip_suffix b';' t)) [
  | inl n ↦ rw n (sym (trim_terminators_done t e n))
  | inr (r, n) ↦
      rw n (strip_loop_lem fuel (trim_end r) (shorter r n) (trim_end_twice r))
      ∙ trim_terminators-trim_end r
      ∙ sym (strip_suffix-trim_terminators t {r = r} n)
]
  where
    shorter : (r : Text) → strip_suffix b';' t ≡ some r → length (trim_end r) ≤ fuel
    shorter r n = omega (arith, b, length-trim_end r, length-strip_suffix b';' t {r = r} n)

-- The loop takes off exactly the white space and the semicolons at the end of the statement, in
-- whatever order they stand, and its fuel is always enough.
pub strip_trailing_semicolons_lem :
    (sql : Text) → strip_trailing_semicolons sql ≡ trim_terminators sql
unfolding strip_trailing_semicolons
strip_trailing_semicolons_lem sql =
    strip_loop_lem (length sql) (trim_end sql) (length-trim_end sql) (trim_end_twice sql)
    ∙ trim_terminators-trim_end sql
