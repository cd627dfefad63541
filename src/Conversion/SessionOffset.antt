-- ===== src/Conversion/SessionOffset.antt =====
-- The session zone of an offset, read as Trino writes it.
use stackable_odbc_trino.Base.{
  ℕ, min, ◌+◌, ◌-◌, ◌*◌, ◌/◌, ◌%◌, ◌≤◌, ℤ, pos, negsuc, magnitude, ◌-ℤ◌, leb_ℤ, ◌≡◌, refl, ap, Bool,
  true, false, ◌∷◌, ◌++◌, some, if◌then◌else◌, All-mono, arith, eq_of_parts, int_laws,
}
use stackable_odbc_trino.Base.Text.{IsDigit, show, pad, split_once}
use stackable_odbc_trino.Base.Text.Decimal.{pad-IsDigit, length-pad}
use stackable_odbc_trino.Base.Text.Split.{split_once_first}
use stackable_odbc_trino.Params.Literal.{date_text, time_text, offset_text}
use stackable_odbc_trino.Column.{ColumnValue}
use stackable_odbc_trino.Conversion.Temporal.{max_u16}
use stackable_odbc_trino.Conversion.Offsets.{times}
use stackable_odbc_trino.Conversion.ZoneShift.{trim-LacksSpace, parse_i32-pad}
use stackable_odbc_trino.Conversion.Zones.{
  Chrono, SessionZone, fixed, fixed_offset, zone_of, parse_session_zone, parse_trino_timestamp_tz,
}
use stackable_odbc_trino.Conversion.OwnZone.{
  KeepsTime, parse_trino_timestamp_tz-rendered, hours_minutes, IsDigit-ne, clock_sum,
  offset_text-LacksSpace, times_negative,
}

module _ (x : Chrono) where
  fixed_offset-pad :
      (negative : Bool) (n : ℕ)
      → n ≤ 1139
      → fixed_offset x negative (pad 2 (show (n / 60)), pad 2 (show (n % 60)))
        ≡ some (fixed (if negative then pos 0 -ℤ pos (60 * n) else pos (60 * n)))
  unfolding fixed_offset times
  fixed_offset-pad negative n b =
      let h : leb_ℤ (pos (n / 60)) (pos 18) ≡ true = ground arith in
      let m : leb_ℤ (pos (n % 60)) (pos 59) ≡ true = ground arith in
      rw
        (
          length-pad 1 (n / 60) (omega (arith, b)),
          length-pad 1 (n % 60) (omega arith),
          parse_i32-pad 2 (n / 60) (omega (arith, b)),
          parse_i32-pad 2 (n % 60) (omega arith),
          h,
          m,
          clock_sum n,
        )
        refl

  parts :
      (n : ℕ)
      → split_once b':' (hours_minutes n) ≡ some (pad 2 (show (n / 60)), pad 2 (show (n % 60)))
  parts n =
      split_once_first b':' (pad 2 (show (n / 60))) (pad 2 (show (n % 60)))
        (All-mono IsDigit _ IsDigit-ne _ (pad-IsDigit 2 (n / 60)))

  pub parse_session_zone-offset_text :
      (o : ℤ)
      → magnitude o ≤ 1139
      → parse_session_zone x (offset_text o) ≡ some (fixed (times 60 o))
  unfolding parse_session_zone zone_of offset_text
  parse_session_zone-offset_text (pos o) b =
      rw
        (
          trim-LacksSpace (offset_text (pos o)) (offset_text-LacksSpace (pos o)),
          parts o,
          fixed_offset-pad false o b,
        )
        (unfold times in refl)
  parse_session_zone-offset_text (negsuc o) b =
      let e : pos 0 -ℤ pos (60 * (o + 1)) ≡ negsuc (60 * (o + 1) - 1) =
        eq_of_parts _ _ (omega int_laws) in
      rw
        (
          trim-LacksSpace (offset_text (negsuc o)) (offset_text-LacksSpace (negsuc o)),
          parts (o + 1),
          fixed_offset-pad true (o + 1) (omega (arith, b)),
          e,
        )
        (ap (λ s. some (fixed s)) (times_negative o))

  -- The coordinator's texts for one offset agree: in the session whose zone is read from an offset of
  -- at most 18 hours, a timestamp with that offset is shown as it is written, its fraction capped
  -- below one second, if the date and time exist.
  pub parse_trino_timestamp_tz-parse_session_zone :
      (laws : KeepsTime x) (session : SessionZone x) (y : ℤ) (mo d h mi s f : ℕ) (o : ℤ)
      (t : x.DateTime)
      → parse_session_zone x (offset_text o) ≡ some session
      → magnitude y ≤ 32767
      → mo ≤ max_u16
      → d ≤ max_u16
      → h ≤ max_u16
      → mi ≤ max_u16
      → s ≤ max_u16
      → magnitude o ≤ 1080
      → x.from_fields y mo d h mi s (min f 999_999_999) ≡ some t
      → parse_trino_timestamp_tz x
          (date_text y mo d ++ b' ' ∷ (time_text h mi s f ++ b' ' ∷ offset_text o))
          session
        ≡ some (ColumnValue.timestamp y mo d h mi s (min f 999_999_999))
  parse_trino_timestamp_tz-parse_session_zone laws session y mo d h mi s f o t e by bmo bd bh bmi bs
        bo exists =
      let own = parse_session_zone-offset_text o (omega (arith, bo)) in
      let same : fixed (times 60 o) ≡ session = cc (own, e) in
      rw (← same)
        (parse_trino_timestamp_tz-rendered x laws y mo d h mi s f o t by bmo bd bh bmi bs bo exists)
