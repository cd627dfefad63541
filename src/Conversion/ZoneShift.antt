-- ===== src/Conversion/ZoneShift.antt =====
-- A time of day moved between zones and back (`shift_time`).
use Prim.Native.Nat.{min}
use stackable_odbc_trino.Base.{
  ℕ, ◌+◌, ◌*◌, ◌/◌, ◌%◌, ◌≤◌, ◌<◌, ◌≡◌, refl, ap, ◌∙◌, ℤ, pos, negsuc, pos_part, neg_part, -ℤ_parts,
  +ℤ_parts, eq_of_parts, false, magnitude, ◌+ℤ◌, ◌-ℤ◌, [], ◌∷◌, ◌++◌, some, arith,
}
use stackable_odbc_trino.Base.Fallible.{◌>>=◌}
use stackable_odbc_trino.Base.Text.{Text, show, pad, split_once}
use stackable_odbc_trino.Base.Text.Decimal.{pad-IsDigit, pad-pos, parse_digits-pad}
use stackable_odbc_trino.Base.Text.Split.{split_once_first}
use stackable_odbc_trino.Base.Text.Space.{trim, trim_start, trim_end, keep_last, LacksSpace}
use stackable_odbc_trino.Column.{ColumnValue}
use stackable_odbc_trino.Params.Literal.{nanos, time_text}
use stackable_odbc_trino.Conversion.TypeParams.{parse_i32}
use stackable_odbc_trino.Conversion.TypeText.{parse_i32_unsigned}
use stackable_odbc_trino.Conversion.RoundTrip.{
  digits_lack, colon_lacks, split_three_lem, parse_fraction_nanos-nanos, time_text_shape,
  time_text-LacksSpace,
}
use stackable_odbc_trino.Conversion.Offsets.{
  checked, times, minute_of_day, to_u16, second_of, at_minute, shift_clock, shift_time,
}

trim_end-LacksSpace : (s : Text) → LacksSpace s → trim_end s ≡ s
unfolding trim_end
trim_end-LacksSpace [] h = refl
trim_end-LacksSpace (c ∷ s) (hc, hs) = rw (hc, trim_end-LacksSpace s hs) (kept c s)
  where
    kept : (c : ℕ) (s : Text) → keep_last false c s ≡ c ∷ s
    kept c [] = refl
    kept c (d ∷ s) = refl

pub trim-LacksSpace : (s : Text) → LacksSpace s → trim s ≡ s
unfolding trim trim_start
trim-LacksSpace [] h = trim_end-LacksSpace [] h
trim-LacksSpace (c ∷ s) (hc, hs) = rw hc (trim_end-LacksSpace (c ∷ s) (hc, hs))

pub parse_i32-pad : (w n : ℕ) → n ≤ 2147483647 → parse_i32 (pad w (show n)) ≡ some (pos n)
parse_i32-pad w n b =
    parse_i32_unsigned (pad w (show n)) (pad-IsDigit w n) (pad-pos w n)
    ∙ ap (λ o. o >>= λ m. some (pos m)) (parse_digits-pad 2147483647 w n b)

second_of_lem :
    (s f : ℕ)
    → s ≤ 65535
    → second_of
        (pad 2 (show s) ++ b'.' ∷ nanos f)
        (split_once b'.' (pad 2 (show s) ++ b'.' ∷ nanos f))
      ≡ some (pos s, min f 999_999_999)
unfolding second_of
second_of_lem s f b =
    rw
      (
        split_once_first b'.' (pad 2 (show s)) (nanos f)
            (digits_lack b'.' _ (omega arith) (pad-IsDigit 2 s)),
        parse_i32-pad 2 s (omega (arith, b)),
        parse_fraction_nanos-nanos f,
      )
      refl

checked_small : (z : ℤ) → magnitude z ≤ 2147483647 → checked z ≡ some z
unfolding checked
checked_small (pos n) b = ground arith
checked_small (negsuc n) b = ground arith

difference_small :
    (z : ℤ) (a b : ℕ)
    → pos_part z + a ≡ neg_part z + b
    → a ≤ 1001440
    → b ≤ 1001440
    → magnitude z ≤ 2147483647
difference_small (pos n) a b e ha hb = omega (arith, e, hb)
difference_small (negsuc n) a b e ha hb = omega (arith, e, ha)

parts_small : (z : ℤ) → magnitude z ≤ 1000000 → (pos_part z ≤ 1000000) × (neg_part z ≤ 1000000)
parts_small (pos n) b = (b, omega arith)
parts_small (negsuc n) b = (omega arith, b)

pos_sum : (a b : ℕ) → pos a +ℤ pos b ≡ pos (a + b)
pos_sum a b = eq_of_parts (pos a +ℤ pos b) (pos (a + b)) (omega (arith, +ℤ_parts (pos a) (pos b)))

times_pos : (h : ℕ) → times 60 (pos h) ≡ pos (h * 60)
unfolding times
times_pos h = let same : 60 * h ≡ h * 60 = omega arith in ap pos same

to_u16_small : (s : ℕ) → s ≤ 65535 → to_u16 (pos s) ≡ some s
unfolding to_u16
to_u16_small s b = ground arith

shifted_lem :
    (h m s fraction : ℕ) (offset : ℤ)
    → h < 24
    → m < 60
    → s ≤ 65535
    → magnitude offset ≤ 1000000
    → (checked (times 60 (pos h)) >>= λ minutes.
        (checked (minutes +ℤ pos m) >>= λ clock.
        (checked (clock -ℤ offset) >>= λ total. at_minute total fraction (pos s))))
      ≡ some (
          ColumnValue.time
            (minute_of_day (pos (h * 60 + m) -ℤ offset) / 60)
            (minute_of_day (pos (h * 60 + m) -ℤ offset) % 60)
            s
            fraction)
unfolding at_minute
shifted_lem h m s fraction offset bh bm bs bo =
    let (plus, minus) = parts_small offset bo in
    let total =
      difference_small (pos (h * 60 + m) -ℤ offset) (pos_part offset) (h * 60 + m + neg_part offset)
        (omega (arith, -ℤ_parts (pos (h * 60 + m)) offset)) (omega (arith, plus))
        (omega (arith, minus, bh, bm)) in
    rw
      (
        times_pos h,
        checked_small (pos (h * 60)) (omega (arith, bh)),
        pos_sum (h * 60) m,
        checked_small (pos (h * 60 + m)) (omega (arith, bh, bm)),
        checked_small (pos (h * 60 + m) -ℤ offset) total,
        to_u16_small s bs,
      )
      refl

-- A time of day written as the driver writes it, moved by an offset.
pub shift_time-time_text :
    (h m s f : ℕ) (offset : ℤ)
    → h < 24
    → m < 60
    → s ≤ 65535
    → magnitude offset ≤ 1000000
    → shift_time (time_text h m s f) offset
      ≡ some (
          ColumnValue.time
            (minute_of_day (pos (h * 60 + m) -ℤ offset) / 60)
            (minute_of_day (pos (h * 60 + m) -ℤ offset) % 60)
            s
            (min f 999_999_999))
unfolding shift_time shift_clock
shift_time-time_text h m s f offset bh bm bs bo =
    rw
      (
        trim-LacksSpace (time_text h m s f) (time_text-LacksSpace h m s f),
        time_text_shape h m s f,
        split_three_lem b':' (pad 2 (show h)) (pad 2 (show m)) _ (colon_lacks _ (pad-IsDigit 2 h))
            (colon_lacks _ (pad-IsDigit 2 m)),
        parse_i32-pad 2 h (omega (arith, bh)),
        parse_i32-pad 2 m (omega (arith, bm)),
        second_of_lem s f bs,
      )
      (shifted_lem h m s (min f 999_999_999) offset bh bm bs bo)

-- The minute of the day is the number up to whole days.
minute_of_day_parts :
    (z : ℤ) → ((minute_of_day z + neg_part z) % 1440 ≡ pos_part z % 1440) × (minute_of_day z < 1440)
unfolding minute_of_day
minute_of_day_parts (pos n) = (omega arith, omega arith)
minute_of_day_parts (negsuc n) = (omega arith, omega arith)

-- Back by the opposite offset, the minute of the day is the old one.
minute_of_day_back :
    (t : ℕ) (offset : ℤ)
    → t < 1440
    → minute_of_day (pos (minute_of_day (pos t -ℤ offset)) -ℤ (pos 0 -ℤ offset)) ≡ t
minute_of_day_back t offset b =
    let there = pos t -ℤ offset in
    let back = pos 0 -ℤ offset in
    let again = pos (minute_of_day there) -ℤ back in
    omega (
      arith,
      b,
      -ℤ_parts (pos t) offset,
      -ℤ_parts (pos 0) offset,
      -ℤ_parts (pos (minute_of_day there)) back,
      (minute_of_day_parts there).0,
      (minute_of_day_parts there).1,
      (minute_of_day_parts again).0,
      (minute_of_day_parts again).1,
    )

opposite_small : (z : ℤ) → magnitude z ≤ 1000000 → magnitude (pos 0 -ℤ z) ≤ 1000000
opposite_small z b = opposite (pos 0 -ℤ z) z (-ℤ_parts (pos 0) z) b
  where
    opposite :
        (w z : ℤ)
        → pos_part w + neg_part (pos 0) + pos_part z ≡ neg_part w + pos_part (pos 0) + neg_part z
        → magnitude z ≤ 1000000
        → magnitude w ≤ 1000000
    opposite (pos n) (pos o) e b = omega (arith, e, b)
    opposite (pos n) (negsuc o) e b = omega (arith, e, b)
    opposite (negsuc n) (pos o) e b = omega (arith, e, b)
    opposite (negsuc n) (negsuc o) e b = omega (arith, e, b)

-- The time at a minute of the day.
abbrev at_clock : ℕ → ℕ → ℕ → ColumnValue
at_clock n s f = ColumnValue.time (n / 60) (n % 60) s f

at_clock_lem :
    (h m s e f : ℕ) → m < 60 → e ≡ f → at_clock (h * 60 + m) s e ≡ ColumnValue.time h m s f
at_clock_lem h m s e f b same =
    let hour : (h * 60 + m) / 60 ≡ h = omega (arith, b) in
    let minute : (h * 60 + m) % 60 ≡ m = omega (arith, b) in rw (hour, minute, same) refl

-- The clock that is shown, up to whole days.
clock_there :
    (h m : ℕ) (offset : ℤ)
    → (60 * (minute_of_day (pos (h * 60 + m) -ℤ offset) / 60)
          + minute_of_day (pos (h * 60 + m) -ℤ offset) % 60
          + pos_part offset)
        % 1440
      ≡ (60 * h + m + neg_part offset) % 1440
clock_there h m offset =
    let there = pos (h * 60 + m) -ℤ offset in
    omega (
      arith,
      -ℤ_parts (pos (h * 60 + m)) offset,
      (minute_of_day_parts there).0,
      (minute_of_day_parts there).1,
    )

-- A time of day moved to another zone is a time of day, and its clock is the old one less the offset,
-- up to whole days; the second and the fraction are kept. Moved back by the opposite offset, the time
-- is the old one, over midnight too. Offsets are of at most a million minutes.
pub shift_time_back :
    (h m s f : ℕ) (offset : ℤ)
    → h < 24
    → m < 60
    → s ≤ 65535
    → f ≤ 999999999
    → magnitude offset ≤ 1000000
    → (h' : ℕ) × (m' : ℕ) × (h' < 24)
      × (m' < 60)
      × ((60 * h' + m' + pos_part offset) % 1440 ≡ (60 * h + m + neg_part offset) % 1440)
      × (shift_time (time_text h m s f) offset ≡ some (ColumnValue.time h' m' s f))
      × (shift_time (time_text h' m' s f) (pos 0 -ℤ offset) ≡ some (ColumnValue.time h m s f))
shift_time_back h m s f offset bh bm bs bf bo =
    let x = minute_of_day (pos (h * 60 + m) -ℤ offset) in
    let bx = (minute_of_day_parts (pos (h * 60 + m) -ℤ offset)).1 in
    let kept : min f 999_999_999 ≡ f = omega (arith, bf) in
    let whole : x / 60 * 60 + x % 60 ≡ x = omega arith in
    let back = minute_of_day_back (h * 60 + m) offset (omega (arith, bh, bm)) in
    let small = opposite_small offset bo in
    (
      x / 60,
      x % 60,
      omega (arith, bx),
      omega arith,
      clock_there h m offset,
      shift_time-time_text h m s f offset bh bm bs bo
          ∙ ap (λ n. some (ColumnValue.time (x / 60) (x % 60) s n)) kept,
      shift_time-time_text (x / 60) (x % 60) s f (pos 0 -ℤ offset) (omega (arith, bx)) (omega arith)
            bs small
          ∙ ap (λ n. some (at_clock n s (min f 999_999_999)))
              (ap (λ n. minute_of_day (pos n -ℤ (pos 0 -ℤ offset))) whole ∙ back)
          ∙ ap some (at_clock_lem h m s (min f 999_999_999) f bm kept),
    )
