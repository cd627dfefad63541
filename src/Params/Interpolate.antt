-- ===== src/Params/Interpolate.antt =====
-- `interpolate_params`: the `?` placeholders outside string literals are replaced by literals.
use stackable_odbc_trino.Base.{
  ℕ, ◌+◌, Bool, true, false, not, ◌&&◌, List, [], ◌∷◌, ◌++◌, none, some, ◌==◌, if◌then◌else◌,
  get_elem?, length,
}
use stackable_odbc_trino.Base.Outcome.{Result, ok, err, ◌>>=◌}
use stackable_odbc_trino.Base.Text.{Text}
use stackable_odbc_trino.Column.{ColumnValue}
use stackable_odbc_trino.Errors.{
  TrinoError, general, not_enough_parameters, parameter_count_mismatch,
}
use stackable_odbc_trino.Params.Literal.{Externals, quote, render_literal}

-- `out.push(c)` before the rest of the output.
abbrev pub push : ℕ → Result TrinoError Text → Result TrinoError Text
push c rest = rest >>= λ t. ok (c ∷ t)

module _ (x : Externals) (params : List ColumnValue) where
  -- The value of placeholder `next`, rendered.
  unfoldable pub literal_at : ℕ → Result TrinoError Text
  literal_at next = elim (get_elem? params next) [
    | none ↦ err (general (not_enough_parameters (next + 1) (length params)))
    | some v ↦ render_literal x v
  ]

  -- The test after the loop.
  unfoldable pub finish : ℕ → Result TrinoError Text
  finish next =
      if next == length params
      then ok []
      else err (general (parameter_count_mismatch (length params) next))

  -- The loop over the characters, with the index of the next parameter and whether the scan stands
  -- inside a string literal. `d ∷ s` is what `chars.peek()` sees.
  unfoldable pub scan : Text → ℕ → Bool → Result TrinoError Text
  unfolding literal_at finish
  scan [] next in_string = finish next
  scan (c ∷ []) next in_string =
      if c == quote
      then push c (finish next)
      else if (c == b'?') && not in_string
      then (literal_at next >>= λ l. finish (next + 1) >>= λ t. ok (l ++ t))
      else push c (finish next)
  scan (c ∷ d ∷ s) next in_string =
      let opened = push c (scan (d ∷ s) next true) in
      let escaped = push c (push d (scan s next true)) in
      let closed = push c (scan (d ∷ s) next false) in
      let filled = (literal_at next >>= λ l. scan (d ∷ s) (next + 1) false >>= λ t. ok (l ++ t)) in
      let copied = push c (scan (d ∷ s) next in_string) in
      if c == quote
      then (if in_string then (if d == quote then escaped else closed) else opened)
      else if (c == b'?') && not in_string
      then filled
      else copied

  unfoldable pub interpolate_params : Text → Result TrinoError Text
  unfolding scan
  interpolate_params sql = scan sql 0 false
