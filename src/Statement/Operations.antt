-- ===== src/Statement/Operations.antt =====
-- An application's calls on one statement, in any order: fetch, get_data, take_value_warning and
-- close_cursor.
use stackable_odbc_trino.Base.{
  ℕ, zero, suc, ◌-◌, ◌≡◌, refl, false, List, [], ◌∷◌, Option, none, some, arith, inl, inr,
  get_elem?, Option-cases,
}
use stackable_odbc_trino.Base.Outcome.{Result}
use stackable_odbc_trino.Base.Fallible.{◌>>=◌}
use stackable_odbc_trino.Base.Text.{Text}
use stackable_odbc_trino.Column.{ColumnValue}
use stackable_odbc_trino.Errors.{TrinoError}
use stackable_odbc_trino.Statement.State.{Statement, prepare, get_data, take_value_warning}
use stackable_odbc_trino.Statement.Fetch.{Driver, Machine, fetch}
use stackable_odbc_trino.Statement.Close.{close_cursor}
use stackable_odbc_trino.Statement.Invariant.{IsValid, fetch-IsValid}
use stackable_odbc_trino.Statement.Endings.{close_cursor_clears}

-- A call, with the fuel of those that loop.
pub data Call : Type 0 where
  fetch_row : ℕ → Call
  read_column : ℕ → Call
  take_warning : Call
  close : ℕ → Call

module _ {A B C : Type 0} where
  abbrev pub outcome : Option (A × B) → (B → Option C) → Option C
  outcome none k = none
  outcome (some (r, m)) k = k m

  outcome-some :
      (o : Option (A × B)) (k : B → Option C) {c : C}
      → outcome o k ≡ some c
      → (r : A) × (m : B) × (o ≡ some (r, m)) × (k m ≡ some c)
  outcome-some none k h = cc
  outcome-some (some (r, m)) k h = (r, m, refl, h)

same_some : {A : Type 0} {a b : A} → ◌≡◌ {A = Option A} (some a) (some b) → a ≡ b
same_some h = cc

>>=-some :
    {A B : Type 0} (o : Option A) (k : A → Option B) {b : B}
    → (o >>= k) ≡ some b
    → (a : A) × (o ≡ some a) × (k a ≡ some b)
>>=-some none k h = cc
>>=-some (some a) k h = (a, refl, h)

module _ (d : Driver) where
  -- A call on a statement, whatever its result; `none` when it runs out of fuel or panics.
  unfoldable pub perform : Call → Machine d → Option (Machine d)
  perform (fetch_row fuel) m = outcome (fetch d fuel m) some
  perform (read_column col) (s, w) = outcome (get_data col s) (λ s'. some (s', w))
  perform take_warning (s, w) = some ((take_value_warning s).1, w)
  perform (close fuel) m = outcome (close_cursor d fuel m) some

  unfoldable pub perform_all : List Call → Machine d → Option (Machine d)
  perform_all [] m = some m
  perform_all (c ∷ calls) m = perform c m >>= perform_all calls

  get_data-IsValid :
      (col : ℕ) (s : Statement d.Descriptor d.TrinoTy) {r : Result TrinoError ColumnValue}
      {s' : Statement d.Descriptor d.TrinoTy}
      → IsValid s
      → get_data col s ≡ some (r, s')
      → IsValid s'
  unfolding get_data
  get_data-IsValid zero s v h = ground arith
  get_data-IsValid (suc k) s v h = elim (Option-cases (get_elem? s.batch (s.batch_cursor - 1))) [
    | inl e ↦ ground arith
    | inr (x, e) ↦ ground arith
  ]

  warning-IsValid :
      (s : Statement d.Descriptor d.TrinoTy) → IsValid s → IsValid (take_value_warning s).1
  unfolding take_value_warning
  warning-IsValid s v = record { within = v.within; abandoned = v.abandoned }

  empty-IsValid :
      (s : Statement d.Descriptor d.TrinoTy)
      → s.batch ≡ []
      → s.batch_cursor ≡ 0
      → s.next_uri ≡ none
      → s.fetch_failed ≡ false
      → IsValid s
  empty-IsValid s e b u f = ground arith

  perform-IsValid :
      (c : Call) (m : Machine d) {m' : Machine d}
      → IsValid m.0
      → perform c m ≡ some m'
      → IsValid m'.0
  unfolding perform
  perform-IsValid (fetch_row fuel) m {m'} v h =
      let (r, n, e, q) = outcome-some (fetch d fuel m) some {c = m'} h in
      rw (← same_some q) (fetch-IsValid d fuel m {r = r} {m' = n} v e)
  perform-IsValid (read_column col) (s, w) {m'} v h =
      let (r, s', e, q) = outcome-some (get_data col s) (λ t. some (t, w)) {c = m'} h in
      rw (← same_some q) (get_data-IsValid col s {r = r} {s' = s'} v e)
  perform-IsValid take_warning (s, w) {m'} v h = rw (← same_some h) (warning-IsValid s v)
  perform-IsValid (close fuel) m {m'} v h =
      let (r, n, e, q) = outcome-some (close_cursor d fuel m) some {c = m'} h in
      let (empty, before, stops, _, clear, _) = close_cursor_clears d fuel m {r = r} {m' = n} e in
      rw (← same_some q) (empty-IsValid n.0 empty before stops clear)

  -- Whatever calls an application makes on a valid statement, in whatever order and with whatever
  -- results, the statement that they leave is valid: its cursor is within the batch, and behind a
  -- failure there are no rows and no next page.
  pub perform_all-IsValid :
      (calls : List Call) (m : Machine d) {m' : Machine d}
      → IsValid m.0
      → perform_all calls m ≡ some m'
      → IsValid m'.0
  unfolding perform_all
  perform_all-IsValid [] m v h = rw (← same_some h) v
  perform_all-IsValid (c ∷ calls) m {m'} v h =
      let (n, e, rest) = >>=-some (perform c m) (perform_all calls) {b = m'} h in
      perform_all-IsValid calls n {m' = m'} (perform-IsValid c m {m' = n} v e) rest

  -- A statement that has just been prepared is valid.
  pub prepare-IsValid : (sql : Text) → IsValid (prepare {D = d.Descriptor} {T = d.TrinoTy} sql)
  unfolding prepare
  prepare-IsValid sql = record { within = omega arith; abandoned = λ h. cc }
