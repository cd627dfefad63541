-- ===== src/Conversion/OwnZone.antt =====
-- A timestamp with an offset, shown in a session with the same offset.
use stackable_odbc_trino.Base.{
  ℕ, ◌+◌, ◌-◌, ◌*◌, ◌/◌, ◌%◌, ◌≤◌, ◌<◌, min, ℤ, pos, negsuc, magnitude, ◌+ℤ◌, ◌-ℤ◌, ◌≡◌, refl, ◌≢◌,
  ap, ◌∙◌, Bool, true, false, [], ◌∷◌, ◌++◌, some, length, All, All-mono, All-append, append_assoc,
  arith, eq_of_parts, int_laws,
}
use stackable_odbc_trino.Base.Fallible.{◌>>=◌}
use stackable_odbc_trino.Base.Text.{Text, IsDigit, show, pad, parse_digits}
use stackable_odbc_trino.Base.Text.Decimal.{pad-IsDigit, pad-pos, parse_digits-pad}
use stackable_odbc_trino.Base.Text.Space.{LacksSpace, IsDigit-lacks_space, is_whitespace}
use stackable_odbc_trino.Base.Text.Split.{split_once_first}
use stackable_odbc_trino.Column.{ColumnValue}
use stackable_odbc_trino.Params.Literal.{date_text, time_text, offset_text}
use stackable_odbc_trino.Conversion.Temporal.{max_u16}
use stackable_odbc_trino.Conversion.TypeParams.{rsplit_once, in_i16}
use stackable_odbc_trino.Conversion.TypeText.{rsplit_once_last}
use stackable_odbc_trino.Conversion.Offsets.{times}
use stackable_odbc_trino.Conversion.RoundTrip.{parse_trino_timestamp-rendered}
use stackable_odbc_trino.Conversion.ZoneShift.{trim-LacksSpace}
use stackable_odbc_trino.Conversion.Zones.{
  Chrono, parse_i64, wrap_i64, signed_word, with_sign, hours_of, minutes_of, parse_offset_seconds,
  fixed, parse_numeric_offset, instant, wall_time, shown, in_session, parse_trino_timestamp_tz,
}

-- What chrono documents: a shift is undone by the opposite one, a date and time that is accepted has
-- its fields, and a day's seconds are a time span.
pub record KeepsTime (x : Chrono) : Type 0 where
  pub shifted_back : (t : x.DateTime) (s : ℤ) → x.later (x.earlier t s) s ≡ t
  pub keeps_fields :
      (y : ℤ) (mo d h mi s f : ℕ) (t : x.DateTime)
      → x.from_fields y mo d h mi s f ≡ some t
      → (x.year t ≡ y)
        × (x.month t ≡ mo)
        × (x.day t ≡ d)
        × (x.hour t ≡ h)
        × (x.minute t ≡ mi)
        × (x.second t ≡ s)
  pub spans_days : (s : ℤ) → magnitude s ≤ 86400 → x.try_seconds s ≡ some s

parse_i64_unsigned :
    (s : Text)
    → All IsDigit s
    → 0 < length s
    → parse_i64 s ≡ (parse_digits 9223372036854775807 s >>= λ m. some (pos m))
unfolding parse_i64
parse_i64_unsigned [] h l = elim l [ ]
parse_i64_unsigned (c ∷ s) (hc, hs) l = ground arith

parse_i64-pad : (w n : ℕ) → n ≤ 9223372036854775807 → parse_i64 (pad w (show n)) ≡ some (pos n)
parse_i64-pad w n b =
    parse_i64_unsigned (pad w (show n)) (pad-IsDigit w n) (pad-pos w n)
    ∙ ap (λ o. o >>= λ m. some (pos m)) (parse_digits-pad 9223372036854775807 w n b)

wrap_small : (n : ℕ) → n < 9223372036854775808 → wrap_i64 (pos n) ≡ pos n
unfolding wrap_i64 signed_word
wrap_small n h = ground arith

wrap_negative : (n : ℕ) → n < 9223372036854775808 → wrap_i64 (negsuc n) ≡ negsuc n
unfolding wrap_i64 signed_word
wrap_negative n h = ground arith

abbrev pub hours_minutes : ℕ → Text
hours_minutes n = pad 2 (show (n / 60)) ++ b':' ∷ pad 2 (show (n % 60))

pub IsDigit-ne : (c : ℕ) → IsDigit c → c ≢ b':'
IsDigit-ne c h = omega (arith, h)

pub clock_sum : (n : ℕ) → pos (3600 * (n / 60)) +ℤ pos (60 * (n % 60)) ≡ pos (60 * n)
clock_sum n = eq_of_parts _ _ (omega int_laws)

offset_seconds_lem :
    (negative : Bool) (n : ℕ)
    → n ≤ 1080
    → parse_offset_seconds negative (hours_minutes n) ≡ some (with_sign negative (pos (60 * n)))
unfolding parse_offset_seconds
offset_seconds_lem negative n b =
    rw
      (split_once_first b':' (pad 2 (show (n / 60))) (pad 2 (show (n % 60)))
        (All-mono IsDigit (λ c. c ≢ b':') IsDigit-ne _ (pad-IsDigit 2 (n / 60))))
      (unfold hours_of minutes_of times in
        rw (
          parse_i64-pad 2 (n / 60) (omega (arith, b)),
          parse_i64-pad 2 (n % 60) (omega arith),
          wrap_small (3600 * (n / 60)) (omega (arith, b)),
          wrap_small (60 * (n % 60)) (omega arith),
          clock_sum n,
          wrap_small (60 * n) (omega (arith, b)),
        ))

pub hours_minutes-LacksSpace : (n : ℕ) → LacksSpace (hours_minutes n)
hours_minutes-LacksSpace n =
    let digits : (k : ℕ) → LacksSpace (pad 2 (show k)) = λ k.
      All-mono IsDigit (λ c. is_whitespace c ≡ false) IsDigit-lacks_space _ (pad-IsDigit 2 k) in
    All-append (λ c. is_whitespace c ≡ false) (pad 2 (show (n / 60))) _ (digits (n / 60))
      (unfold is_whitespace in refl, digits (n % 60))

pub offset_text-LacksSpace : (o : ℤ) → LacksSpace (offset_text o)
unfolding offset_text
offset_text-LacksSpace (pos o) = (unfold is_whitespace in refl, hours_minutes-LacksSpace o)
offset_text-LacksSpace (negsuc o) = (unfold is_whitespace in refl, hours_minutes-LacksSpace (o + 1))

not_space : (c : ℕ) → is_whitespace c ≡ false → c ≢ b' '
unfolding is_whitespace
not_space c h = ground arith

turned : (k : ℕ) → 0 < k → k ≤ 1080 → with_sign true (pos (60 * k)) ≡ negsuc (60 * k - 1)
unfolding with_sign
turned k p b =
    let e : pos 0 -ℤ pos (60 * k) ≡ negsuc (60 * k - 1) = eq_of_parts _ _ (omega (int_laws, p)) in
    rw e (wrap_negative (60 * k - 1) (omega (arith, b)))

pub times_negative : (o : ℕ) → negsuc (60 * (o + 1) - 1) ≡ times 60 (negsuc o)
unfolding times
times_negative o = ground arith

in_i16_lem : (y : ℤ) → magnitude y ≤ 32767 → in_i16 y ≡ some y
unfolding in_i16
in_i16_lem (pos n) h = ground arith
in_i16_lem (negsuc n) h = ground arith

module _ (x : Chrono) (laws : KeepsTime x) where
  instant_own :
      (o : ℤ) (t : x.DateTime)
      → magnitude o ≤ 1080
      → instant x t (offset_text o) ≡ some (x.earlier t (times 60 o))
  unfolding instant offset_text parse_numeric_offset
  instant_own (pos o) t b =
      let e : with_sign false (pos (60 * o)) ≡ pos (60 * o) =
        unfold with_sign in wrap_small (60 * o) (omega (arith, b)) in
      rw (offset_seconds_lem false o b, e, laws.spans_days (pos (60 * o)) (omega (arith, b)))
        (unfold times in refl)
  instant_own (negsuc o) t b =
      rw
        (
          offset_seconds_lem true (o + 1) (omega (arith, b)),
          turned (o + 1) (omega arith) (omega (arith, b)),
          laws.spans_days (negsuc (60 * (o + 1) - 1)) (omega (arith, b)),
        )
        (ap (λ s. some (x.earlier t s)) (times_negative o))

  -- What a date and time that chrono accepts is shown as.
  shown_own :
      (y : ℤ) (mo d h mi s f : ℕ) (t : x.DateTime)
      → magnitude y ≤ 32767
      → x.from_fields y mo d h mi s f ≡ some t
      → shown x f t ≡ some (ColumnValue.timestamp y mo d h mi s f)
  unfolding shown
  shown_own y mo d h mi s f t by e =
      let (ey, emo, ed, eh, emi, es) = laws.keeps_fields y mo d h mi s f t e in
      rw (ey, in_i16_lem y by, emo, ed, eh, emi, es)

  -- A timestamp with an offset is shown in a session with the same offset as it is written, its
  -- fraction capped below one second: the text is that of a `TIMESTAMP` literal, the offset is at
  -- most 18 hours, and the date and time exist.
  pub parse_trino_timestamp_tz-rendered :
      (y : ℤ) (mo d h mi s f : ℕ) (o : ℤ) (t : x.DateTime)
      → magnitude y ≤ 32767
      → mo ≤ max_u16
      → d ≤ max_u16
      → h ≤ max_u16
      → mi ≤ max_u16
      → s ≤ max_u16
      → magnitude o ≤ 1080
      → x.from_fields y mo d h mi s (min f 999_999_999) ≡ some t
      → parse_trino_timestamp_tz x
          (date_text y mo d ++ b' ' ∷ (time_text h mi s f ++ b' ' ∷ offset_text o))
          (fixed (times 60 o))
        ≡ some (ColumnValue.timestamp y mo d h mi s (min f 999_999_999))
  unfolding parse_trino_timestamp_tz in_session wall_time
  parse_trino_timestamp_tz-rendered y mo d h mi s f o t by bmo bd bh bmi bs bo e =
      let whole = date_text y mo d ++ b' ' ∷ time_text h mi s f in
      let split : rsplit_once b' '
            (date_text y mo d ++ b' ' ∷ (time_text h mi s f ++ b' ' ∷ offset_text o))
          ≡ some (whole, offset_text o) =
        rw (← append_assoc (date_text y mo d) (b' ' ∷ time_text h mi s f) (b' ' ∷ offset_text o)) (
          rsplit_once_last b' ' whole (offset_text o) (
            All-mono (λ c. is_whitespace c ≡ false) (λ c. c ≢ b' ') not_space _
              (offset_text-LacksSpace o))) in
      rw
        (
          split,
          trim-LacksSpace (offset_text o) (offset_text-LacksSpace o),
          parse_trino_timestamp-rendered y mo d h mi s f by bmo bd bh bmi bs,
          e,
          instant_own o t bo,
          laws.shifted_back t (times 60 o),
        )
        (shown_own y mo d h mi s (min f 999_999_999) t by e)
