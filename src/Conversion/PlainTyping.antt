-- ===== src/Conversion/PlainTyping.antt =====
-- What the readers of the types that hold no others build.
use stackable_odbc_trino.Base.{
  ℕ, zero, suc, ◌≤◌, ◌≡◌, refl, ℤ, pos, negsuc, Bool, true, false, [], ◌∷◌, Option, none, some,
  ◌||◌, not, if◌then◌else◌, arith,
}
use stackable_odbc_trino.Base.Fallible.{◌>>=◌, get_or, >>=-eq-some}
use stackable_odbc_trino.Base.Text.{Text, parse_digits}
use stackable_odbc_trino.Base.Text.Decimal.{parse_digits_bound}
use stackable_odbc_trino.Base.Text.Parts.{or_else}
use stackable_odbc_trino.Column.{ColumnValue}
use stackable_odbc_trino.Params.Literal.{is_finite_f32, is_finite_f64}
use stackable_odbc_trino.Conversion.Temporal.{negate, parse_trino_date}
use stackable_odbc_trino.Conversion.Nested.{
  TrinoTy, PlainType, Value, string, items, object, scalar, Scalar, Values, Members,
}
use stackable_odbc_trino.Conversion.Zones.{Chrono, parse_i64}
use stackable_odbc_trino.Conversion.Values.{
  base64_decode, Readers, fits, as_i64, as_str, as_bool, json_as_text, as_string, integer_value,
  real_value, float_value, parsed, plain_value, of_items, of_object,
}
use stackable_odbc_trino.Conversion.Typed.{as_text, as_json, InWidth, IsPlainOf, IsOf}
use stackable_odbc_trino.Conversion.Typing.{parse_trino_date-IsPlainOf, fits-InWidth, get_or-IsOf}

as_i64-InWidth : (v : Value) (n : ℤ) → as_i64 v ≡ some n → InWidth 63 n
unfolding as_i64
as_i64-InWidth (scalar Scalar.null) n h = cc
as_i64-InWidth (scalar (Scalar.bool b)) n h = cc
as_i64-InWidth (scalar (Scalar.integer (pos m))) (pos n) h = ground arith
as_i64-InWidth (scalar (Scalar.integer (pos m))) (negsuc n) h = ground arith
as_i64-InWidth (scalar (Scalar.integer (negsuc m))) (pos n) h = ground arith
as_i64-InWidth (scalar (Scalar.integer (negsuc m))) (negsuc n) h = ground arith
as_i64-InWidth (scalar (Scalar.float b)) n h = cc
as_i64-InWidth (string s) n h = cc
as_i64-InWidth (items vs) n h = cc
as_i64-InWidth (object ms) n h = cc

negate-InWidth : (m : ℕ) → m ≤ 9223372036854775808 → InWidth 63 (negate m)
negate-InWidth zero b = omega arith
negate-InWidth (suc m) b = omega (arith, b)

plus_digits :
    (s : Text) (n : ℤ)
    → (parse_digits 9223372036854775807 s >>= λ m. some (pos m)) ≡ some n
    → InWidth 63 n
plus_digits s n h =
    let (m, read, made) = >>=-eq-some (parse_digits 9223372036854775807 s) _ {final = n} h in
    let e : pos m ≡ n = cc in
    let b = parse_digits_bound 9223372036854775807 s read in rw (← e) (omega (arith, b))

minus_digits :
    (s : Text) (n : ℤ)
    → (parse_digits 9223372036854775808 s >>= λ m. some (negate m)) ≡ some n
    → InWidth 63 n
minus_digits s n h =
    let (m, read, made) = >>=-eq-some (parse_digits 9223372036854775808 s) _ {final = n} h in
    let e : negate m ≡ n = cc in
    rw (← e) (negate-InWidth m (parse_digits_bound 9223372036854775808 s read))

parse_i64-InWidth : (s : Text) (n : ℤ) → parse_i64 s ≡ some n → InWidth 63 n
unfolding parse_i64
parse_i64-InWidth [] n h = cc
parse_i64-InWidth (c ∷ s) n h =
    ground (arith, minus_digits s n, plus_digits s n, plus_digits (c ∷ s) n)

-- The elements of an option, and of the first of two that gives one.
or_else-eq-some :
    {A : Type 0} (P : A → Type 0) (o : Option A) (other : Option A)
    → ((a : A) → o ≡ some a → P a)
    → ((a : A) → other ≡ some a → P a)
    → (a : A) → or_else o other ≡ some a
    → P a
or_else-eq-some P none other f g a h = g a h
or_else-eq-some P (some b) other f g a h = f a h

read_i64-InWidth :
    (v : Value) (n : ℤ) → or_else (as_i64 v) (as_str v >>= parse_i64) ≡ some n → InWidth 63 n
read_i64-InWidth v =
    or_else-eq-some (InWidth 63) (as_i64 v) (as_str v >>= parse_i64) (as_i64-InWidth v) (λ n h.
      let (s, _, read) = >>=-eq-some (as_str v) parse_i64 {final = n} h in
      parse_i64-InWidth s n read)

module _ (x : Chrono) (r : Readers x) where
  -- A value of the type where a test holds, and the text where it does not.
  choose :
      (ty : TrinoTy) (b : Bool) (v : Value) (cv : ColumnValue)
      → (b ≡ true → IsOf x r ty v cv)
      → IsOf x r ty v (if b then cv else as_string x r v)
  unfolding as_string
  choose ty true v cv h = h refl
  choose ty false v cv h = IsOf.text ty v _ (as_text v)

  integer_value-IsOf :
      (ty : TrinoTy) (bits : ℕ) (typed : ℤ → ColumnValue) (v : Value)
      → ((n : ℤ) → InWidth bits n → IsOf x r ty v (typed n))
      → IsOf x r ty v (integer_value x r bits typed v)
  unfolding integer_value
  integer_value-IsOf ty bits typed v h =
      get_or-IsOf x r ty v (as_i64 v) (λ n. if fits bits n then typed n else as_string x r v)
        (λ n _. choose ty (fits bits n) v (typed n) (λ e. h n (fits-InWidth bits n e)))

  real_value-IsOf :
      (v : Value) (f : ℕ) → IsOf x r (TrinoTy.plain_type PlainType.float32) v (real_value x r v f)
  unfolding real_value
  real_value-IsOf v f =
      choose (TrinoTy.plain_type PlainType.float32)
        (is_finite_f32 (r.narrow f) || not (is_finite_f64 f)) v (ColumnValue.f32 (r.narrow f))
        (λ _. IsOf.plain PlainType.float32 v _ (IsPlainOf.float32 (r.narrow f)))

  or_text :
      (ty : TrinoTy) (o : Option ColumnValue) (s : Text)
      → ((cv : ColumnValue) → o ≡ some cv → IsOf x r ty (string s) cv)
      → IsOf x r ty (string s) (get_or o (ColumnValue.string s))
  or_text ty none s h = IsOf.text ty (string s) s (unfold json_as_text in as_text (string s))
  or_text ty (some cv) s h = h cv refl

  pub parsed-IsOf :
      (ty : TrinoTy) (parse : Text → Option ColumnValue) (v : Value)
      → ((s : Text) (cv : ColumnValue) → parse s ≡ some cv → IsOf x r ty v cv)
      → IsOf x r ty v (parsed x r parse v)
  unfolding parsed
  parsed-IsOf ty parse (string s) h = or_text ty (parse s) s (h s)
  parsed-IsOf ty parse (scalar s) h = IsOf.text ty _ _ (as_json (scalar s))
  parsed-IsOf ty parse (items vs) h = IsOf.text ty _ _ (as_json (items vs))
  parsed-IsOf ty parse (object ms) h = IsOf.text ty _ _ (as_json (object ms))

  pub of_items-IsOf :
      (ty : TrinoTy) (f : Values → ColumnValue) (v : Value)
      → ((vs : Values) → IsOf x r ty (items vs) (f vs))
      → IsOf x r ty v (of_items x r f v)
  unfolding of_items
  of_items-IsOf ty f (items vs) h = h vs
  of_items-IsOf ty f (string s) h = IsOf.text ty _ _ (as_json (string s))
  of_items-IsOf ty f (scalar s) h = IsOf.text ty _ _ (as_json (scalar s))
  of_items-IsOf ty f (object ms) h = IsOf.text ty _ _ (as_json (object ms))

  pub of_object-IsOf :
      (ty : TrinoTy) (f : Members → ColumnValue) (v : Value)
      → ((ms : Members) → IsOf x r ty (object ms) (f ms))
      → IsOf x r ty v (of_object x r f v)
  unfolding of_object
  of_object-IsOf ty f (object ms) h = h ms
  of_object-IsOf ty f (string s) h = IsOf.text ty _ _ (as_json (string s))
  of_object-IsOf ty f (scalar s) h = IsOf.text ty _ _ (as_json (scalar s))
  of_object-IsOf ty f (items vs) h = IsOf.text ty _ _ (as_json (items vs))

  base64_decode-IsPlainOf :
      (s : Text) (cv : ColumnValue)
      → base64_decode x r s ≡ some cv
      → IsPlainOf PlainType.var_binary cv
  unfolding base64_decode
  base64_decode-IsPlainOf s cv h =
      let (b, _, made) = >>=-eq-some (r.decode_standard s) _ {final = cv} h in
      let e : ColumnValue.bytes b ≡ cv = cc in rw (← e) (IsPlainOf.var_binary b)

  pub plain_value-IsOf :
      (p : PlainType) (v : Value) → IsOf x r (TrinoTy.plain_type p) v (plain_value x r p v)
  unfolding plain_value as_string
  plain_value-IsOf PlainType.int64 v =
      get_or-IsOf x r _ v (or_else (as_i64 v) (as_str v >>= parse_i64)) ColumnValue.i64
        (λ n h. IsOf.plain _ v _ (IsPlainOf.int64 n (read_i64-InWidth v n h)))
  plain_value-IsOf PlainType.int32 v =
      integer_value-IsOf _ 31 ColumnValue.i32 v (λ n h. IsOf.plain _ v _ (IsPlainOf.int32 n h))
  plain_value-IsOf PlainType.int16 v =
      integer_value-IsOf _ 15 ColumnValue.i16 v (λ n h. IsOf.plain _ v _ (IsPlainOf.int16 n h))
  plain_value-IsOf PlainType.int8 v =
      integer_value-IsOf _ 7 ColumnValue.i8 v (λ n h. IsOf.plain _ v _ (IsPlainOf.int8 n h))
  plain_value-IsOf PlainType.float64 v =
      get_or-IsOf x r _ v (float_value x r v) ColumnValue.f64
        (λ f _. IsOf.plain _ v _ (IsPlainOf.float64 f))
  plain_value-IsOf PlainType.float32 v =
      get_or-IsOf x r _ v (float_value x r v) (real_value x r v) (λ f _. real_value-IsOf v f)
  plain_value-IsOf PlainType.boolean v =
      get_or-IsOf x r _ v (as_bool v) ColumnValue.bool
        (λ b _. IsOf.plain _ v _ (IsPlainOf.boolean b))
  plain_value-IsOf PlainType.date v =
      parsed-IsOf _ parse_trino_date v
        (λ s cv h. IsOf.plain _ v _ (parse_trino_date-IsPlainOf s cv h))
  plain_value-IsOf (PlainType.decimal p s) v =
      IsOf.plain _ v _ (IsPlainOf.decimal p s (json_as_text x r v))
  plain_value-IsOf PlainType.json v = IsOf.plain _ v _ (IsPlainOf.json (json_as_text x r v))
  plain_value-IsOf PlainType.var_binary v =
      parsed-IsOf _ (base64_decode x r) v
        (λ s cv h. IsOf.plain _ v _ (base64_decode-IsPlainOf s cv h))
  plain_value-IsOf PlainType.varchar v = IsOf.text _ v _ (as_text v)
  plain_value-IsOf PlainType.uuid v = IsOf.text _ v _ (as_text v)
  plain_value-IsOf PlainType.ip_address v = IsOf.text _ v _ (as_text v)
  plain_value-IsOf PlainType.interval_year_to_month v = IsOf.text _ v _ (as_text v)
  plain_value-IsOf PlainType.interval_day_to_second v = IsOf.text _ v _ (as_text v)
  plain_value-IsOf PlainType.unknown v = IsOf.text _ v _ (as_text v)
  plain_value-IsOf (PlainType.char n) v = IsOf.text _ v _ (as_text v)
