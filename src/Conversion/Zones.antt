-- ===== src/Conversion/Zones.antt =====
-- `SessionZone` and timestamps with a time zone. The calendar and the zones of chrono and chrono-tz
-- are a parameter.
use stackable_odbc_trino.Base.{
  ℕ, suc, ◌-◌, ◌/◌, ◌%◌, ◌^◌, ℤ, pos, negsuc, ◌+ℤ◌, ◌-ℤ◌, Bool, true, false, ◌&&◌, ltb, leb_ℤ, [],
  ◌∷◌, Option, none, some, ◌==◌, if◌then◌else◌, length,
}
use stackable_odbc_trino.Base.Fallible.{◌>>=◌, get_or}
use stackable_odbc_trino.Base.Text.{Text, parse_digits, split_once}
use stackable_odbc_trino.Base.Text.Space.{trim}
use stackable_odbc_trino.Column.{ColumnValue}
use stackable_odbc_trino.Conversion.Temporal.{negate, parse_trino_timestamp}
use stackable_odbc_trino.Conversion.TypeParams.{rsplit_once, parse_i32, in_i16}
use stackable_odbc_trino.Conversion.Offsets.{times}

-- A `NaiveDateTime`, with its fields and the shift by a number of seconds in either direction, and a
-- named zone: the instant of a local time, the earlier of two, the local time of an instant, and the
-- offset at an instant, in seconds. A shift that leaves chrono's calendar panics, which the model
-- does not show.
pub record Chrono : Type 1 where
  pub DateTime : Type 0
  pub Zone : Type 0
  pub from_fields : ℤ → ℕ → ℕ → ℕ → ℕ → ℕ → ℕ → Option DateTime
  pub year : DateTime → ℤ
  pub month : DateTime → ℕ
  pub day : DateTime → ℕ
  pub hour : DateTime → ℕ
  pub minute : DateTime → ℕ
  pub second : DateTime → ℕ
  pub try_seconds : ℤ → Option ℤ
  pub earlier : DateTime → ℤ → DateTime
  pub later : DateTime → ℤ → DateTime
  pub parse_zone : Text → Option Zone
  pub earliest : Zone → DateTime → Option DateTime
  pub local_time : Zone → DateTime → DateTime
  pub offset_at : Zone → DateTime → ℤ

-- `parse::<i64>()`
unfoldable pub parse_i64 : Text → Option ℤ
unfolding parse_digits
parse_i64 [] = none
parse_i64 (c ∷ s) =
    let negative = (parse_digits 9223372036854775808 s >>= λ n. some (negate n)) in
    let plus = (parse_digits 9223372036854775807 s >>= λ n. some (pos n)) in
    let bare = (parse_digits 9223372036854775807 (c ∷ s) >>= λ n. some (pos n)) in
    if c == b'-' then negative else if c == b'+' then plus else bare

-- The 64 bits of a result, as a signed number.
unfoldable pub signed_word : ℕ → ℤ
signed_word n = if ltb n (2 ^ 63) then pos n else negsuc (2 ^ 64 - 1 - n)

unfoldable pub wrap_i64 : ℤ → ℤ
unfolding signed_word
wrap_i64 (pos n) = signed_word (n % 2 ^ 64)
wrap_i64 (negsuc n) = signed_word (2 ^ 64 - 1 - n % 2 ^ 64)

-- `i64::from(sign) * n`
unfoldable pub with_sign : Bool → ℤ → ℤ
unfolding wrap_i64
with_sign true n = wrap_i64 (pos 0 -ℤ n)
with_sign false n = wrap_i64 n

unfoldable pub hours_of : Text → Option (Text × Text) → Text
hours_of t none = t
hours_of t (some (h, m)) = h

-- The minutes count only if they are there and can be read.
unfoldable pub minutes_of : Option (Text × Text) → ℤ
minutes_of none = pos 0
minutes_of (some (h, m)) = get_or (parse_i64 m) (pos 0)

unfoldable pub parse_offset_seconds : Bool → Text → Option ℤ
unfolding hours_of minutes_of with_sign times
parse_offset_seconds negative hhmm =
    let parts = split_once b':' hhmm in
    parse_i64 (hours_of hhmm parts) >>= λ h. some (
      with_sign negative
        (wrap_i64 (wrap_i64 (times 3600 h) +ℤ wrap_i64 (times 60 (minutes_of parts)))))

-- `n / k`, which rounds towards zero.
unfoldable pub quotient : ℤ → ℕ → ℤ
quotient (pos n) k = pos (n / k)
quotient (negsuc n) k = negate (suc n / k)

module _ (x : Chrono) where
  pub data SessionZone : Type 0 where
    named : x.Zone → SessionZone
    fixed : ℤ → SessionZone

  -- An offset, in seconds, from hours and minutes of two characters each; with at most 18 hours and
  -- 59 minutes it is in chrono's range.
  unfoldable pub fixed_offset : Bool → Text × Text → Option SessionZone
  unfolding times
  fixed_offset negative (h, m) =
      if (length h == 2) && (length m == 2)
      then (parse_i32 h >>= λ hours.
          (parse_i32 m >>= λ minutes.
          (if leb_ℤ hours (pos 18) && leb_ℤ minutes (pos 59)
            then (let seconds = times 3600 hours +ℤ times 60 minutes in
                some (fixed (if negative then pos 0 -ℤ seconds else seconds)))
            else none)))
      else none

  unfoldable pub zone_of : Text → Option SessionZone
  unfolding fixed_offset
  zone_of [] = none
  zone_of (c ∷ s) =
      if c == b'+'
      then split_once b':' s >>= fixed_offset false
      else if c == b'-'
      then split_once b':' s >>= fixed_offset true
      else x.parse_zone (c ∷ s) >>= λ z. some (named z)

  -- `SessionZone::parse`
  unfoldable pub parse_session_zone : Text → Option SessionZone
  unfolding trim zone_of
  parse_session_zone s = zone_of (trim s)

  unfoldable pub offset_minutes_at : SessionZone → x.DateTime → ℤ
  unfolding quotient
  offset_minutes_at (named z) utc = quotient (x.offset_at z utc) 60
  offset_minutes_at (fixed offset) utc = quotient offset 60

  unfoldable pub wall_time : SessionZone → x.DateTime → x.DateTime
  wall_time (named z) utc = x.local_time z utc
  wall_time (fixed offset) utc = x.later utc offset

  -- `parse_numeric_offset`
  unfoldable pub parse_numeric_offset : Bool → Text → Option ℤ
  unfolding parse_offset_seconds
  parse_numeric_offset negative hhmm = parse_offset_seconds negative hhmm >>= x.try_seconds

  -- The instant of a local time in the zone of the text.
  unfoldable pub instant : x.DateTime → Text → Option x.DateTime
  unfolding parse_numeric_offset
  instant local [] = x.parse_zone [] >>= λ z. x.earliest z local
  instant local (c ∷ s) =
      if c == b'+'
      then (parse_numeric_offset false s >>= λ offset. some (x.earlier local offset))
      else if c == b'-'
      then (parse_numeric_offset true s >>= λ offset. some (x.earlier local offset))
      else (x.parse_zone (c ∷ s) >>= λ z. x.earliest z local)

  -- The fields of a local time, with the fraction of the text; a year fits into 16 bits.
  unfoldable pub shown : ℕ → x.DateTime → Option ColumnValue
  unfolding in_i16
  shown fraction local = in_i16 (x.year local) >>= λ y. some (
      ColumnValue.timestamp y (x.month local) (x.day local) (x.hour local) (x.minute local)
        (x.second local) fraction)

  unfoldable pub in_session : SessionZone → Text → ColumnValue → Option ColumnValue
  unfolding instant wall_time shown
  in_session session zone (ColumnValue.timestamp y mo d h mi s f) =
      x.from_fields y mo d h mi s f >>= λ local.
      (instant local zone >>= λ utc. shown f (wall_time session utc))
  in_session session zone _ = none

  unfoldable pub parse_trino_timestamp_tz : Text → SessionZone → Option ColumnValue
  unfolding in_session trim
  parse_trino_timestamp_tz s session = rsplit_once b' ' s >>= λ (datetime_part, zone).
      (parse_trino_timestamp datetime_part >>= in_session session (trim zone))
