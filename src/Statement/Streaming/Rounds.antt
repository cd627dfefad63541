-- ===== src/Statement/Streaming/Rounds.antt =====
-- One fetch over a stream of pages: the next row, or the end of the data.
use mathlib.Core.Path.{subst}
use stackable_odbc_trino.Base.{
  ℕ, zero, suc, ◌+◌, ◌-◌, ◌≤◌, ◌<◌, ◌≡◌, sym, ap, ◌∙◌, List, [], ◌∷◌, ◌++◌, Option, none, some,
  arith, inl, inr, ltb, length, get_elem?, drop, Option-cases, Bool-cases, ltb→lt,
}
use stackable_odbc_trino.Base.Outcome.{ok}
use stackable_odbc_trino.Base.Text.{Text}
use stackable_odbc_trino.Statement.State.{Row}
use stackable_odbc_trino.Statement.Fetch.{
  row, no_data, again, Driver, Machine, Answer, fetch_round, continue_with, fetch_loop,
}
use stackable_odbc_trino.Statement.Streaming.{remaining, current, IsStreaming}
use stackable_odbc_trino.Statement.Streaming.Pages.{
  some_inj, drop-ne_nil, drop-cons, drop_past, requested,
}

module _ (d : Driver) where
  -- A row of the batch is delivered at once.
  buffered :
      (f fuel : ℕ) (m : Machine d) (r : Row) (rows : List Row)
      → IsStreaming d f m (r ∷ rows)
      → m.0.batch_cursor < length m.0.batch
      → (m' : Machine d) × (fetch_loop d (suc fuel) m ≡ some (ok row, m'))
        × (current d m'.0 ≡ some r)
        × IsStreaming d f m' rows
  unfolding fetch_loop fetch_round continue_with current
  buffered f fuel m r rows h b =
      let k = m.0.batch_cursor in
      let (here, rest) = drop-cons k m.0.batch h.later rows r b h.unread in
      let back : k + 1 - 1 ≡ k = omega arith in
      let forth : k + 1 ≡ suc k = omega arith in
      (
        (record m.0 { batch_cursor = k + 1 }, m.1),
        ground (arith, h.online, h.uncancelled),
        ap (get_elem? m.0.batch) back ∙ here,
        record {
          online = h.online;
          live = h.live;
          uncancelled = h.uncancelled;
          later = h.later;
          serves = h.serves;
          unread = ap (λ (i : ℕ). drop i m.0.batch ++ h.later) forth ∙ rest;
        },
      )

  -- With the batch read and no page to come, the rows have all been delivered.
  exhausted :
      (f fuel : ℕ) (m : Machine d) (rows : List Row)
      → IsStreaming d f m rows
      → length m.0.batch ≤ m.0.batch_cursor
      → m.0.next_uri ≡ none
      → (rows ≡ []) × (fetch_loop d (suc fuel) m ≡ some (ok no_data, m))
  unfolding remaining fetch_loop fetch_round continue_with
  exhausted f fuel m rows h b e = (
    sym h.unread
        ∙ ap (λ l. l ++ h.later) (drop_past m.0.batch_cursor m.0.batch b)
        ∙ some_inj (sym h.serves ∙ ap (λ u. remaining d m.0.trino_types f u m.1.client) e),
    ground (arith, h.uncancelled),
  )

  loop_again :
      (fuel : ℕ) (m m' : Machine d)
      → fetch_round d m ≡ (again, m')
      → fetch_loop d (suc fuel) m ≡ fetch_loop d fuel m'
  unfolding fetch_loop continue_with
  loop_again fuel m m' e = rw e

  -- A fetch gives the next row, or the end of the data when no row is left.
  abbrev Fetched : ℕ → Answer d → List Row → Type 0
  Fetched fuel a [] = (m' : Machine d) × (a ≡ some (ok no_data, m'))
  Fetched fuel a (r ∷ rows) =
      (f' : ℕ) × (m' : Machine d) × (f' ≤ fuel)
      × (a ≡ some (ok row, m'))
      × (current d m'.0 ≡ some r)
      × IsStreaming d f' m' rows

  Fetched-here :
      (fuel f : ℕ) (m : Machine d) (rows : List Row)
      → f ≤ fuel
      → IsStreaming d f m rows
      → m.0.batch_cursor < length m.0.batch
      → Fetched fuel (fetch_loop d (suc fuel) m) rows
  Fetched-here fuel f m [] b h l =
      absurd (drop-ne_nil m.0.batch_cursor m.0.batch h.later l h.unread)
  Fetched-here fuel f m (r ∷ rows) b h l =
      let (m', done, here, streams) = buffered f fuel m r rows h l in
      (f, m', b, done, here, streams)

  Fetched-none :
      (fuel f : ℕ) (m : Machine d) (rows : List Row)
      → IsStreaming d f m rows
      → length m.0.batch ≤ m.0.batch_cursor
      → m.0.next_uri ≡ none
      → Fetched fuel (fetch_loop d (suc fuel) m) rows
  Fetched-none fuel f m rows h l e =
      let (nothing, done) = exhausted f fuel m rows h l e in
      subst (Fetched fuel (fetch_loop d (suc fuel) m)) (sym nothing) (m, done)

  no_fuel :
      (url : Text) (m : Machine d) (rows : List Row)
      → IsStreaming d 0 m rows
      → m.0.next_uri ≡ some url
      → ⊥
  unfolding remaining
  no_fuel url m rows h e =
      let none_served : ◌≡◌ {A = Option (List Row)} none (some h.later) =
        subst (λ u. remaining d m.0.trino_types 0 u m.1.client ≡ some h.later) e h.serves in
      cc

  later-Fetched :
      (fuel : ℕ) (a : Answer d) (rows : List Row) → Fetched fuel a rows → Fetched (suc fuel) a rows
  later-Fetched fuel a [] h = h
  later-Fetched fuel a (r ∷ rows) (f', m', b, done, here, streams) =
      (f', m', omega arith, done, here, streams)

  pub fetch_loop-Fetched :
      (fuel f : ℕ) (m : Machine d) (rows : List Row)
      → f ≤ fuel
      → IsStreaming d f m rows
      → Fetched fuel (fetch_loop d (suc fuel) m) rows
  fetch_loop-Fetched zero zero m rows b h =
      elim (Bool-cases (ltb m.0.batch_cursor (length m.0.batch))) [
        | inl l ↦ Fetched-here zero zero m rows b h (ltb→lt _ _ l)
        | inr l ↦ elim (Option-cases m.0.next_uri) [
          | inl e ↦ Fetched-none zero zero m rows h (ground arith) e
          | inr (url, e) ↦ absurd (no_fuel url m rows h e)
        ]
      ]
  fetch_loop-Fetched zero (suc f) m rows b h = elim b [ ]
  fetch_loop-Fetched (suc fuel) zero m rows b h =
      elim (Bool-cases (ltb m.0.batch_cursor (length m.0.batch))) [
        | inl l ↦ Fetched-here (suc fuel) zero m rows b h (ltb→lt _ _ l)
        | inr l ↦ elim (Option-cases m.0.next_uri) [
          | inl e ↦ Fetched-none (suc fuel) zero m rows h (ground arith) e
          | inr (url, e) ↦ absurd (no_fuel url m rows h e)
        ]
      ]
  fetch_loop-Fetched (suc fuel) (suc f) m rows b h =
      elim (Bool-cases (ltb m.0.batch_cursor (length m.0.batch))) [
        | inl l ↦ Fetched-here (suc fuel) (suc f) m rows b h (ltb→lt _ _ l)
        | inr l ↦ elim (Option-cases m.0.next_uri) [
          | inl e ↦ Fetched-none (suc fuel) (suc f) m rows h (ground arith) e
          | inr (url, e) ↦
              let (m', next, streams) = requested d f url m rows h (ground arith) e in
              subst (λ a. Fetched (suc fuel) a rows) (sym (loop_again (suc fuel) m m' next))
                (later-Fetched fuel _ rows
                  (fetch_loop-Fetched fuel f m' rows (omega arith) streams))
        ]
      ]
