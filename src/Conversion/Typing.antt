-- ===== src/Conversion/Typing.antt =====
-- The values that the readers of texts, arrays and objects build.
use stackable_odbc_trino.Base.{ℕ, ◌≡◌, refl, ℤ, pos, negsuc, true, Option, none, some, arith}
use stackable_odbc_trino.Base.Fallible.{◌>>=◌, get_or, >>=-eq-some}
use stackable_odbc_trino.Base.Text.{Text, split_once}
use stackable_odbc_trino.Base.Text.Space.{first_token, trim}
use stackable_odbc_trino.Column.{ColumnValue}
use stackable_odbc_trino.Conversion.Temporal.{
  parse_ymd, parse_clock, parse_trino_date, parse_trino_time, parse_trino_timestamp,
}
use stackable_odbc_trino.Conversion.Offsets.{parse_trino_time_with_tz}
use stackable_odbc_trino.Conversion.DayBounds.{parse_trino_time_with_tz-InDay}
use stackable_odbc_trino.Conversion.TypeParams.{rsplit_once, in_i16}
use stackable_odbc_trino.Conversion.Nested.{
  TrinoTy, PlainType, Value, string, items, object, scalar, Scalar, Values, no_values, with_value,
  Members, no_members, with_member,
}
use stackable_odbc_trino.Conversion.Zones.{
  Chrono, SessionZone, instant, wall_time, shown, in_session, parse_trino_timestamp_tz,
}
use stackable_odbc_trino.Conversion.Values.{
  Readers, as_string, fits, unless_null, map_values, map_members,
}
use stackable_odbc_trino.Conversion.Typed.{
  as_text, InWidth, IsPlainOf, IsOf, AllOf, PairsOf, none_left, and_all, no_pairs, and_pairs,
}

pub parse_trino_date-IsPlainOf :
    (s : Text) (v : ColumnValue) → parse_trino_date s ≡ some v → IsPlainOf PlainType.date v
unfolding parse_trino_date
parse_trino_date-IsPlainOf s v h =
    let ((y, m, d), _, made) = >>=-eq-some (parse_ymd s) _ {final = v} h in
    let e : ColumnValue.date y m d ≡ v = cc in rw (← e) (IsPlainOf.date y m d)

abbrev IsTimestamp : ColumnValue → Type 0
IsTimestamp v =
    (y : ℤ) × (mo : ℕ) × (d : ℕ) × (h : ℕ) × (mi : ℕ) × (s : ℕ) × (f : ℕ) × (v
      ≡ ColumnValue.timestamp y mo d h mi s f)

parse_trino_timestamp-IsTimestamp :
    (s : Text) (v : ColumnValue) → parse_trino_timestamp s ≡ some v → IsTimestamp v
unfolding parse_trino_timestamp
parse_trino_timestamp-IsTimestamp s v h =
    let (p, _, h₁) = >>=-eq-some (split_once b' ' s) _ {final = v} h in
    let (t, _, h₂) = >>=-eq-some (first_token p.1) _ {final = v} h₁ in
    let ((y, mo, d), _, h₃) = >>=-eq-some (parse_ymd p.0) _ {final = v} h₂ in
    let ((hour, mi, sec, f), _, made) = >>=-eq-some (parse_clock t) _ {final = v} h₃ in
    (y, mo, d, hour, mi, sec, f, cc)

pub fits-InWidth : (bits : ℕ) (n : ℤ) → fits bits n ≡ true → InWidth bits n
fits-InWidth bits (pos n) h = ground arith
fits-InWidth bits (negsuc n) h = ground arith

module _ (x : Chrono) (r : Readers x) where
  pub parse_trino_time-IsOf :
      (w : Value) (s : Text) (v : ColumnValue)
      → parse_trino_time s ≡ some v
      → IsOf x r TrinoTy.time w v
  unfolding parse_trino_time
  parse_trino_time-IsOf w s v h =
      let (t, _, rest) = >>=-eq-some (first_token s) _ {final = v} h in
      let ((hour, m, sec, f), _, made) = >>=-eq-some (parse_clock t) _ {final = v} rest in
      let e : ColumnValue.time hour m sec f ≡ v = cc in rw (← e) (IsOf.time w hour m sec f)

  pub parse_trino_timestamp-IsOf :
      (w : Value) (s : Text) (v : ColumnValue)
      → parse_trino_timestamp s ≡ some v
      → IsOf x r TrinoTy.timestamp w v
  parse_trino_timestamp-IsOf w s v h =
      let (y, mo, d, hour, mi, sec, f, e) = parse_trino_timestamp-IsTimestamp s v h in
      rw e (IsOf.timestamp w y mo d hour mi sec f)

  pub parse_trino_time_with_tz-IsOf :
      (offset : ℤ) (w : Value) (s : Text) (v : ColumnValue)
      → parse_trino_time_with_tz s offset ≡ some v
      → IsOf x r TrinoTy.time_with_time_zone w v
  parse_trino_time_with_tz-IsOf offset w s v e =
      let (h, m, sec, f, made, _, _, _) = parse_trino_time_with_tz-InDay s offset {v = v} e in
      rw made (IsOf.zoned_time w h m sec f)

  pub unless_null-IsOf :
      (ty : TrinoTy) (v : Value) (cv : ColumnValue)
      → IsOf x r ty v cv
      → IsOf x r ty v (unless_null v cv)
  unfolding unless_null
  unless_null-IsOf ty (scalar Scalar.null) cv h = IsOf.null ty
  unless_null-IsOf ty (scalar (Scalar.bool b)) cv h = h
  unless_null-IsOf ty (scalar (Scalar.integer n)) cv h = h
  unless_null-IsOf ty (scalar (Scalar.float b)) cv h = h
  unless_null-IsOf ty (string s) cv h = h
  unless_null-IsOf ty (items vs) cv h = h
  unless_null-IsOf ty (object ms) cv h = h

  -- What is built from an option that may be empty, with the text in its place.
  pub get_or-IsOf :
      {A : Type 0} (ty : TrinoTy) (v : Value) (o : Option A) (f : A → ColumnValue)
      → ((a : A) → o ≡ some a → IsOf x r ty v (f a))
      → IsOf x r ty v (get_or (o >>= λ a. some (f a)) (as_string x r v))
  unfolding as_string
  get_or-IsOf ty v none f h = IsOf.text ty v _ (as_text v)
  get_or-IsOf ty v (some a) f h = h a refl

  pub map_values-AllOf :
      (ty : TrinoTy) (f : Value → ColumnValue) (vs : Values)
      → ((v : Value) → IsOf x r ty v (f v))
      → AllOf x r ty vs (map_values f vs)
  unfolding map_values
  map_values-AllOf ty f no_values h = none_left ty
  map_values-AllOf ty f (with_value v vs) h =
      and_all ty v vs (f v) (map_values f vs) (h v) (map_values-AllOf ty f vs h)

  pub map_members-PairsOf :
      (k v : TrinoTy) (f : Text → ColumnValue) (g : Value → ColumnValue) (ms : Members)
      → ((s : Text) → IsOf x r k (string s) (f s))
      → ((w : Value) → IsOf x r v w (g w))
      → PairsOf x r k v ms (map_members f g ms)
  unfolding map_members
  map_members-PairsOf k v f g no_members hf hg = no_pairs k v
  map_members-PairsOf k v f g (with_member s w ms) hf hg =
      and_pairs k v s w ms (f s) (g w) (map_members f g ms) (hf s) (hg w)
        (map_members-PairsOf k v f g ms hf hg)

  in_session-IsOf :
      (session : SessionZone x) (w : Value) (zone : Text) (y : ℤ) (mo d h mi s f : ℕ)
      (v : ColumnValue)
      → in_session x session zone (ColumnValue.timestamp y mo d h mi s f) ≡ some v
      → IsOf x r TrinoTy.timestamp_with_time_zone w v
  unfolding in_session shown
  in_session-IsOf session w zone y mo d h mi s f v e =
      let (local, _, e₁) = >>=-eq-some (x.from_fields y mo d h mi s f) _ {final = v} e in
      let (utc, _, e₂) = >>=-eq-some (instant x local zone) _ {final = v} e₁ in
      let t = wall_time x session utc in
      let (y', _, made) = >>=-eq-some (in_i16 (x.year t)) _ {final = v} e₂ in
      let k : ColumnValue.timestamp y' (x.month t) (x.day t) (x.hour t) (x.minute t) (x.second t) f
          ≡ v =
        cc in
      rw (← k) (IsOf.zoned_timestamp w y' _ _ _ _ _ f)

  pub parse_trino_timestamp_tz-IsOf :
      (session : SessionZone x) (w : Value) (s : Text) (v : ColumnValue)
      → parse_trino_timestamp_tz x s session ≡ some v
      → IsOf x r TrinoTy.timestamp_with_time_zone w v
  unfolding parse_trino_timestamp_tz
  parse_trino_timestamp_tz-IsOf session w s v h =
      let ((before, zone), _, h₁) = >>=-eq-some (rsplit_once b' ' s) _ {final = v} h in
      let (base, read, h₂) = >>=-eq-some (parse_trino_timestamp before) _ {final = v} h₁ in
      let (y, mo, d, hour, mi, sec, f, e) = parse_trino_timestamp-IsTimestamp before base read in
      in_session-IsOf session w (trim zone) y mo d hour mi sec f v (rw e at h₂)
