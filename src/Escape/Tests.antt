-- ===== src/Escape/Tests.antt =====
-- Calls whose arguments hold commas and quotes, and the theorems applied to them.
use stackable_odbc_trino.Base.{◌≡◌, refl, [], ◌∷◌, ◌++◌, some, map, arith, inl}
use stackable_odbc_trino.Base.Text.{Text, codes, eq_text}
use stackable_odbc_trino.Base.Text.Space.{trim, trim_start, trim_end, is_whitespace}
use stackable_odbc_trino.Base.Text.Case.{upper}
use stackable_odbc_trino.Escape.Args.{
  next_is, from_code, step, ends_argument, pieces, cut, split_args,
}
use stackable_odbc_trino.Escape.Functions.{
  arm, remap_scalar_fn, trino_interval_unit, trino_convert_target, with_target, rewrite_scalar_fn,
  with_unit, with_two, with_three, apply_arm,
}
use stackable_odbc_trino.Escape.Grammar.{IsArgument, doubled_in}
use stackable_odbc_trino.Escape.Splitting.{joined, split_args-joined}
use stackable_odbc_trino.Escape.Calls.{IsRewriting, rewrite_scalar_fn_two}

abbrev comma : Text
comma = codes "',' "

abbrev call : Text
call = codes "(,')')"

nothing-IsArgument : IsArgument 0 []
nothing-IsArgument = IsArgument.ended 0 [] refl refl

space-IsArgument : IsArgument 0 (codes " ")
space-IsArgument =
    IsArgument.plain 0 b' ' [] (codes " ") (omega arith) (λ d. omega arith) refl nothing-IsArgument

comma-IsArgument : IsArgument 0 comma
unfolding doubled_in next_is
comma-IsArgument =
    IsArgument.literal 0 b'\'' (codes ",") (codes " ") comma (inl refl) refl refl space-IsArgument

inner-IsArgument : IsArgument 1 (codes ",')')")
unfolding doubled_in next_is
inner-IsArgument =
    IsArgument.plain 1 b',' (codes "')')") (codes ",')')") (omega arith) (λ d. omega (arith, d))
      refl
      (IsArgument.literal 1 b'\'' (codes ")") (codes ")") (codes "')')") (inl refl) refl refl
        (IsArgument.closed 1 0 [] (codes ")") refl refl nothing-IsArgument))

call-IsArgument : IsArgument 0 call
call-IsArgument = IsArgument.opened 0 (codes ",')')") call refl inner-IsArgument

split_args-joined_example : split_args (joined (comma ∷ call ∷ [])) ≡ map trim (comma ∷ call ∷ [])
split_args-joined_example =
    split_args-joined comma (call ∷ []) (comma-IsArgument, (call-IsArgument, tt))

rewrite_scalar_fn_two_example :
    rewrite_scalar_fn (codes "Locate") (comma ++ b',' ∷ call)
    ≡ some (codes "position(" ++ trim comma ++ codes " IN " ++ trim call ++ codes ")")
unfolding upper
rewrite_scalar_fn_two_example =
    rewrite_scalar_fn_two (codes "Locate") comma call
      (some (codes "position(" ++ trim comma ++ codes " IN " ++ trim call ++ codes ")"))
      comma-IsArgument call-IsArgument (IsRewriting.located refl refl)

converted :
    rewrite_scalar_fn (codes "convert") (codes "price, sql_Char")
    ≡ some (codes "CAST(price AS VARCHAR)")
unfolding rewrite_scalar_fn arm apply_arm with_two with_target trino_convert_target upper eq_text
    split_args pieces cut step from_code next_is ends_argument trim trim_start trim_end
    is_whitespace
converted = refl

added :
    rewrite_scalar_fn (codes "TimestampAdd") (codes "sql_tsi_day, 1, t")
    ≡ some (codes "date_add('day', 1, t)")
unfolding rewrite_scalar_fn arm apply_arm with_three with_unit trino_interval_unit upper eq_text
    split_args pieces cut step from_code next_is ends_argument trim trim_start trim_end
    is_whitespace
added = refl

renamed : remap_scalar_fn (codes "lcase") ≡ some (codes "lower")
unfolding remap_scalar_fn arm upper eq_text
renamed = refl
