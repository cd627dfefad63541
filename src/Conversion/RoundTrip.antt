-- ===== src/Conversion/RoundTrip.antt =====
-- What backend/params.rs renders of dates, times and timestamps, read by type_conversion.rs.
use Prim.Native.Nat.{min}
use stackable_odbc_trino.Base.{
  ℕ, zero, suc, ◌+◌, ◌≤◌, ◌<◌, ◌≡◌, refl, ap, ◌∙◌, ◌≢◌, ℤ, pos, negsuc, magnitude, Bool, true,
  false, [], ◌∷◌, ◌++◌, append_assoc, append-nil, some, arith, if◌then◌else◌, take, length, All,
  All-mono, All-append, length-append,
}
use stackable_odbc_trino.Base.Text.{Text, IsDigit, show, pad}
use stackable_odbc_trino.Base.Text.Decimal.{pad-IsDigit, pad-pos, length-pad, parse_unsigned-pad}
use stackable_odbc_trino.Base.Text.Split.{split_once_first}
use stackable_odbc_trino.Base.Text.Space.{
  is_whitespace, first_token, LacksSpace, first_token_lem, IsDigit-lacks_space,
}
use stackable_odbc_trino.Column.{ColumnValue}
use stackable_odbc_trino.Params.Literal.{nanos, year4, date_text, clock_text, time_text}
use stackable_odbc_trino.Conversion.Temporal.{
  split_three, negate, max_u16, ymd, parse_ymd, pad_end, parse_fraction_nanos, parse_seconds,
  seconds_of, parse_clock, parse_trino_date, parse_trino_time, parse_trino_timestamp,
}

-- A run of digits holds no other character.
pub digits_lack : (sep : ℕ) (s : Text) → sep < b'0' → All IsDigit s → All (λ c. c ≢ sep) s
digits_lack sep [] b h = tt
digits_lack sep (c ∷ s) b (hc, hs) = (omega (arith, hc), digits_lack sep s b hs)

pub colon_lacks : (s : Text) → All IsDigit s → All (λ c. c ≢ b':') s
colon_lacks [] h = tt
colon_lacks (c ∷ s) (hc, hs) = (omega (arith, hc), colon_lacks s hs)

pub split_three_lem :
    (sep : ℕ) (a b c : Text)
    → All (λ d. d ≢ sep) a
    → All (λ d. d ≢ sep) b
    → split_three sep (a ++ sep ∷ (b ++ sep ∷ c)) ≡ some (a, b, c)
unfolding split_three
split_three_lem sep a b c ha hb = rw (split_once_first sep a _ ha, split_once_first sep b c hb)

ymd_lem :
    (negative : Bool) (y m d : ℕ)
    → y ≤ 32767
    → m ≤ max_u16
    → d ≤ max_u16
    → ymd negative (pad 4 (show y) ++ b'-' ∷ (pad 2 (show m) ++ b'-' ∷ pad 2 (show d)))
      ≡ some (if negative then negate y else pos y, m, d)
unfolding ymd
ymd_lem negative y m d by bm bd = rw (
  split_three_lem b'-' (pad 4 (show y)) (pad 2 (show m)) (pad 2 (show d))
      (digits_lack b'-' _ (omega arith) (pad-IsDigit 4 y))
      (digits_lack b'-' _ (omega arith) (pad-IsDigit 2 m)),
  parse_unsigned-pad 32767 4 y by,
  parse_unsigned-pad max_u16 2 m bm,
  parse_unsigned-pad max_u16 2 d bd,
)

parse_ymd_digits :
    (a rest : Text) → 0 < length a → All IsDigit a → parse_ymd (a ++ rest) ≡ ymd false (a ++ rest)
unfolding parse_ymd
parse_ymd_digits [] rest b h = elim b [ ]
parse_ymd_digits (c ∷ a) rest b (hc, ha) = ground arith

negate_successor : (y : ℕ) → negate (y + 1) ≡ negsuc y
negate_successor y = let e : y + 1 ≡ suc y = omega arith in ap negate e

parse_ymd-date_text :
    (y : ℤ) (m d : ℕ)
    → magnitude y ≤ 32767
    → m ≤ max_u16
    → d ≤ max_u16
    → parse_ymd (date_text y m d) ≡ some (y, m, d)
unfolding date_text year4
parse_ymd-date_text (pos y) m d by bm bd =
    parse_ymd_digits (pad 4 (show y)) _ (pad-pos 4 y) (pad-IsDigit 4 y)
    ∙ ymd_lem false y m d by bm bd
parse_ymd-date_text (negsuc y) m d by bm bd =
    unfold parse_ymd in
    (ymd_lem true (y + 1) m d (omega (arith, by)) bm bd
      ∙ ap (λ z. some (z, m, d)) (negate_successor y))

take-length : (s : Text) (n : ℕ) → length s ≡ n → take n s ≡ s
take-length [] zero e = refl
take-length [] (suc n) e = refl
take-length (c ∷ s) zero e = cc
take-length (c ∷ s) (suc n) e = rw (take-length s n (omega arith))

pub parse_fraction_nanos-nanos : (f : ℕ) → parse_fraction_nanos (nanos f) ≡ min f 999_999_999
unfolding parse_fraction_nanos pad_end nanos
parse_fraction_nanos-nanos f =
    let n = min f 999_999_999 in
    let len : length (pad 9 (show n)) ≡ 9 = length-pad 8 n (omega arith) in
    rw (
      len,
      append-nil,
      take-length (pad 9 (show n)) 9 len,
      parse_unsigned-pad 4294967295 9 n (omega arith),
    )

parse_seconds_lem :
    (s f : ℕ)
    → s ≤ max_u16
    → parse_seconds (pad 2 (show s) ++ b'.' ∷ nanos f) ≡ some (s, min f 999_999_999)
unfolding parse_seconds seconds_of
parse_seconds_lem s f b = rw (
  split_once_first b'.' (pad 2 (show s)) (nanos f)
      (digits_lack b'.' _ (omega arith) (pad-IsDigit 2 s)),
  parse_unsigned-pad max_u16 2 s b,
  parse_fraction_nanos-nanos f,
)

pub time_text_shape :
    (h m s f : ℕ)
    → time_text h m s f
      ≡ pad 2 (show h) ++ b':' ∷ (pad 2 (show m) ++ b':' ∷ (pad 2 (show s) ++ b'.' ∷ nanos f))
unfolding time_text clock_text
time_text_shape h m s f = simp append_assoc

parse_clock-time_text :
    (h m s f : ℕ)
    → h ≤ max_u16
    → m ≤ max_u16
    → s ≤ max_u16
    → parse_clock (time_text h m s f) ≡ some (h, m, s, min f 999_999_999)
unfolding parse_clock
parse_clock-time_text h m s f bh bm bs = rw (
  time_text_shape h m s f,
  split_three_lem b':' (pad 2 (show h)) (pad 2 (show m)) _ (colon_lacks _ (pad-IsDigit 2 h))
      (colon_lacks _ (pad-IsDigit 2 m)),
  parse_unsigned-pad max_u16 2 h bh,
  parse_unsigned-pad max_u16 2 m bm,
  parse_seconds_lem s f bs,
)

digits_lack_space : (s : Text) → All IsDigit s → LacksSpace s
digits_lack_space s h = All-mono IsDigit _ IsDigit-lacks_space s h

append-LacksSpace :
    (c : ℕ) (a b : Text)
    → All IsDigit a
    → is_whitespace c ≡ false
    → LacksSpace b
    → LacksSpace (a ++ c ∷ b)
append-LacksSpace c a b ha hc hb = All-append _ a (c ∷ b) (digits_lack_space a ha) (hc, hb)

nanos-IsDigit : (f : ℕ) → All IsDigit (nanos f)
unfolding nanos
nanos-IsDigit f = pad-IsDigit 9 (min f 999_999_999)

pub time_text-LacksSpace : (h m s f : ℕ) → LacksSpace (time_text h m s f)
time_text-LacksSpace h m s f = rw (time_text_shape h m s f) (
    append-LacksSpace b':' _ _ (pad-IsDigit 2 h) (unfold is_whitespace in refl) (
      append-LacksSpace b':' _ _ (pad-IsDigit 2 m) (unfold is_whitespace in refl) (
        append-LacksSpace b'.' _ _ (pad-IsDigit 2 s) (unfold is_whitespace in refl)
          (digits_lack_space (nanos f) (nanos-IsDigit f)))))

time_text-pos : (h m s f : ℕ) → 0 < length (time_text h m s f)
time_text-pos h m s f = rw (time_text_shape h m s f) (
    omega (
      arith,
      length-append (pad 2 (show h))
          (b':' ∷ (pad 2 (show m) ++ b':' ∷ (pad 2 (show s) ++ b'.' ∷ nanos f))),
      pad-pos 2 h,
    ))

time_text_token : (h m s f : ℕ) → first_token (time_text h m s f) ≡ some (time_text h m s f)
time_text_token h m s f =
    first_token_lem (time_text h m s f) (time_text-pos h m s f) (time_text-LacksSpace h m s f)

-- A date whose year fits the driver's field, rendered as in a `DATE` literal, is read back as it was.
pub parse_trino_date-date_text :
    (y : ℤ) (m d : ℕ)
    → magnitude y ≤ 32767
    → m ≤ max_u16
    → d ≤ max_u16
    → parse_trino_date (date_text y m d) ≡ some (ColumnValue.date y m d)
unfolding parse_trino_date
parse_trino_date-date_text y m d by bm bd = rw (parse_ymd-date_text y m d by bm bd)

-- A time of day rendered as in a `TIME` literal is read back as it was, its fraction capped below
-- one second.
pub parse_trino_time-time_text :
    (h m s f : ℕ)
    → h ≤ max_u16
    → m ≤ max_u16
    → s ≤ max_u16
    → parse_trino_time (time_text h m s f) ≡ some (ColumnValue.time h m s (min f 999_999_999))
unfolding parse_trino_time
parse_trino_time-time_text h m s f bh bm bs =
    rw (time_text_token h m s f, parse_clock-time_text h m s f bh bm bs)

date_lacks :
    (y m d : ℕ)
    → All (λ c. c ≢ b' ') (pad 4 (show y) ++ b'-' ∷ (pad 2 (show m) ++ b'-' ∷ pad 2 (show d)))
date_lacks y m d =
    All-append _ (pad 4 (show y)) _ (digits_lack b' ' _ (omega arith) (pad-IsDigit 4 y)) (
      omega arith,
      All-append _ (pad 2 (show m)) _ (digits_lack b' ' _ (omega arith) (pad-IsDigit 2 m))
          (omega arith, digits_lack b' ' _ (omega arith) (pad-IsDigit 2 d)),
    )

date_text_lacks_space : (y : ℤ) (m d : ℕ) → All (λ c. c ≢ b' ') (date_text y m d)
unfolding date_text year4
date_text_lacks_space (pos y) m d = date_lacks y m d
date_text_lacks_space (negsuc y) m d = (omega arith, date_lacks (y + 1) m d)

-- A timestamp rendered as in a `TIMESTAMP` literal is read back as it was, its fraction capped
-- below one second.
pub parse_trino_timestamp-rendered :
    (y : ℤ) (mo d h mi s f : ℕ)
    → magnitude y ≤ 32767
    → mo ≤ max_u16
    → d ≤ max_u16
    → h ≤ max_u16
    → mi ≤ max_u16
    → s ≤ max_u16
    → parse_trino_timestamp (date_text y mo d ++ b' ' ∷ time_text h mi s f)
      ≡ some (ColumnValue.timestamp y mo d h mi s (min f 999_999_999))
unfolding parse_trino_timestamp
parse_trino_timestamp-rendered y mo d h mi s f by bmo bd bh bmi bs = rw (
  split_once_first b' ' (date_text y mo d) (time_text h mi s f) (date_text_lacks_space y mo d),
  time_text_token h mi s f,
  parse_ymd-date_text y mo d by bmo bd,
  parse_clock-time_text h mi s f bh bmi bs,
)
