-- ===== src/Escape/Calls.antt =====
-- What calls with two arguments are rewritten to (`rewrite_scalar_fn`, `rewrite_truncate`).
use mathlib.Core.Path.{subst}
use native.Mathlib.Numerals.{unary_clauses}
use stackable_odbc_trino.Base.{
  ℕ, zero, suc, ◌+◌, ◌-◌, ◌*◌, ◌^◌, ◌≤◌, ◌<◌, ◌≡◌, refl, sym, ap, ◌∙◌, pos, true, [], ◌∷◌, ◌++◌,
  Option, none, some, arith, leb,
}
use stackable_odbc_trino.Base.Text.{Text, codes, eq_text, is_empty, show}
use stackable_odbc_trino.Base.Text.Space.{trim}
use stackable_odbc_trino.Base.Text.Trim.{trim-trim}
use stackable_odbc_trino.Base.Text.Case.{upper}
use stackable_odbc_trino.Base.Text.Decimal.{show-IsDigit}
use stackable_odbc_trino.Conversion.TypeParams.{parse_i32}
use stackable_odbc_trino.Conversion.TypeText.{parse_i32_digits, trim_digits}
use stackable_odbc_trino.Escape.Args.{split_args}
use stackable_odbc_trino.Escape.Grammar.{IsArgument}
use stackable_odbc_trino.Escape.Splitting.{joined, split_args-joined}
use stackable_odbc_trino.Escape.Targets.{
  TargetType, type_name, keywords, IsOneOf, arm-targets, arm-targets-none,
}
use stackable_odbc_trino.Escape.Functions.{
  trino_convert_target, arm, rewrites, apply_arm, with_two, with_target, scaled, rewrite_truncate,
  rewrite_scalar_fn,
}

split_two :
    (a b : Text)
    → IsArgument 0 a
    → IsArgument 0 b
    → split_args (a ++ b',' ∷ b) ≡ trim a ∷ trim b ∷ []
split_two a b ha hb = unfold joined in split_args-joined a (b ∷ []) (ha, (hb, tt))

-- The call in terms of its name in capitals and its two arguments.
rewrite_two :
    (name upper_name a b : Text)
    → IsArgument 0 a
    → IsArgument 0 b
    → upper name ≡ upper_name
    → rewrite_scalar_fn name (a ++ b',' ∷ b)
      ≡ apply_arm (arm upper_name rewrites) (trim a ∷ trim b ∷ []) (is_empty (trim (a ++ b',' ∷ b)))
unfolding rewrite_scalar_fn
rewrite_two name upper_name a b ha hb h =
    ap
      (λ u.
        apply_arm (arm u rewrites) (split_args (a ++ b',' ∷ b)) (is_empty (trim (a ++ b',' ∷ b))))
      h
    ∙ ap (λ parts. apply_arm (arm upper_name rewrites) parts (is_empty (trim (a ++ b',' ∷ b))))
        (split_two a b ha hb)

pow_suc : (n : ℕ) → 10 ^ suc n ≡ 10 * 10 ^ n
pow_suc n = simp unary_clauses (omega arith)

-- 10 to at most the 18th.
pow_bound : (k n : ℕ) → n + k ≡ 18 → 10 ^ n ≤ 10 ^ 18
pow_bound zero n e =
    let last : n ≡ 18 = omega (arith, e) in subst (λ m. 10 ^ m ≤ 10 ^ 18) (sym last) (omega arith)
pow_bound (suc k) n e =
    let more = pow_bound k (suc n) (omega (arith, e)) in
    let step = pow_suc n in omega (arith, more, step)

scaled_literal :
    (value digits : Text) (n : ℕ)
    → suc n ≤ 18
    → scaled value digits (some (pos (suc n)))
      ≡ codes "(truncate("
        ++ value
        ++ codes " * "
        ++ show (10 ^ suc n)
        ++ codes ") / "
        ++ show (10 ^ suc n)
        ++ codes ")"
unfolding scaled
scaled_literal value digits n b = let small : leb (suc n) 18 ≡ true = ground arith in rw small refl

-- A truncation to a number of digits that is written out, from 1 to 18, scales by that power of ten as
-- a literal, which fits into Trino's bigint; to a negative number, it scales the other way round.
pub rewrite_truncate_literal :
    (value : Text) (n : ℕ)
    → 0 < n
    → n ≤ 18
    → (rewrite_truncate value (show n)
        ≡ codes "(truncate("
          ++ value
          ++ codes " * "
          ++ show (10 ^ n)
          ++ codes ") / "
          ++ show (10 ^ n)
          ++ codes ")")
      × (10 ^ n < 2 ^ 63)
unfolding rewrite_truncate
rewrite_truncate_literal value zero p b = elim p [ ]
rewrite_truncate_literal value (suc n) p b =
    let digits = show (suc n) in
    let read : parse_i32 (trim digits) ≡ some (pos (suc n)) =
      ap parse_i32 (trim_digits digits (show-IsDigit (suc n)))
      ∙ parse_i32_digits (suc n) (omega (arith, b)) in
    let limit = pow_bound (18 - suc n) (suc n) (omega (arith, b)) in
    (ap (scaled value digits) read ∙ scaled_literal value digits n b, omega (arith, limit))

with_target-keywords :
    (a b : Text) (t : TargetType)
    → IsOneOf (upper (trim b)) (keywords t)
    → with_target a (trim b) ≡ some (codes "CAST(" ++ a ++ codes " AS " ++ type_name t ++ codes ")")
unfolding with_target trino_convert_target
with_target-keywords a b t k = rw (trim-trim b, arm-targets t (upper (trim b)) k) refl

with_target-none :
    (a b : Text)
    → ((t : TargetType) → IsOneOf (upper (trim b)) (keywords t) → ⊥)
    → with_target a (trim b) ≡ none
unfolding with_target trino_convert_target
with_target-none a b k = rw (trim-trim b, arm-targets-none (upper (trim b)) k) refl

-- What a function of two arguments is rewritten to, from its name in capitals and the arguments.
pub data IsRewriting (name a b : Text) (result : Option Text) : Type 0 where
  located :
      name ≡ codes "LOCATE"
      → result ≡ some (codes "position(" ++ a ++ codes " IN " ++ b ++ codes ")")
      → IsRewriting name a b result
  converted :
      name ≡ codes "CONVERT"
      → (t : TargetType) → IsOneOf (upper b) (keywords t)
      → result ≡ some (codes "CAST(" ++ a ++ codes " AS " ++ type_name t ++ codes ")")
      → IsRewriting name a b result
  left_alone :
      name ≡ codes "CONVERT"
      → ((t : TargetType) → IsOneOf (upper b) (keywords t) → ⊥)
      → result ≡ none
      → IsRewriting name a b result
  truncated :
      name ≡ codes "TRUNCATE"
      → (n : ℕ) → 0 < n
      → n ≤ 18
      → b ≡ show n
      → result
        ≡ some (
            codes "(truncate("
            ++ a
            ++ codes " * "
            ++ show (10 ^ n)
            ++ codes ") / "
            ++ show (10 ^ n)
            ++ codes ")")
      → IsRewriting name a b result

-- A call of `LOCATE`, `CONVERT` or `TRUNCATE`, in letters of any case, with two arguments of the
-- grammar is rewritten with exactly these arguments, in their order and without the space around them,
-- whatever commas and quotes they have inside. `CONVERT` becomes a cast to the Trino type of the
-- keyword, in letters of any case, and is left alone exactly if its second argument is none of the
-- keywords. `TRUNCATE` to a number of digits that is written out, from 1 to 18, scales by that power
-- of ten as a literal.
pub rewrite_scalar_fn_two :
    (name a b : Text) (result : Option Text)
    → IsArgument 0 a
    → IsArgument 0 b
    → IsRewriting (upper name) (trim a) (trim b) result
    → rewrite_scalar_fn name (a ++ b',' ∷ b) ≡ result
unfolding arm eq_text apply_arm with_two
rewrite_scalar_fn_two name a b result ha hb (IsRewriting.located u e) =
    rewrite_two name (codes "LOCATE") a b ha hb u ∙ sym e
rewrite_scalar_fn_two name a b result ha hb (IsRewriting.converted u t k e) =
    rewrite_two name (codes "CONVERT") a b ha hb u ∙ with_target-keywords (trim a) b t k ∙ sym e
rewrite_scalar_fn_two name a b result ha hb (IsRewriting.left_alone u k e) =
    rewrite_two name (codes "CONVERT") a b ha hb u ∙ with_target-none (trim a) b k ∙ sym e
rewrite_scalar_fn_two name a b result ha hb (IsRewriting.truncated u n p m d e) =
    rewrite_two name (codes "TRUNCATE") a b ha hb u
    ∙ ap (λ digits. some (rewrite_truncate (trim a) digits)) d
    ∙ ap some (rewrite_truncate_literal (trim a) n p m).0
    ∙ sym e
