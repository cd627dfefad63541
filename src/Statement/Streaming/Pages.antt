-- ===== src/Statement/Streaming/Pages.antt =====
-- The page side of a fetch: a page that arrives replaces a batch that has been read.
use mathlib.Core.Path.{subst}
use stackable_odbc_trino.Base.{
  ℕ, zero, suc, ◌+◌, ◌%◌, ◌^◌, ◌≤◌, ◌<◌, ◌≡◌, refl, sym, ap, ◌∙◌, true, false, List, [], ◌∷◌, ◌++◌,
  Option, none, some, arith, inl, inr, length, get_elem?, drop, Option-cases,
}
use stackable_odbc_trino.Base.Outcome.{Result, ok, err}
use stackable_odbc_trino.Base.Text.{Text}
use stackable_odbc_trino.Errors.Mapping.{ClientError}
use stackable_odbc_trino.Session.Client.{Page}
use stackable_odbc_trino.Session.Shared.{Store}
use stackable_odbc_trino.Statement.State.{Statement, Row, convert_rows}
use stackable_odbc_trino.Statement.Fetch.{
  again, Driver, Machine, decode_page_rows, take_rows, decode_reply, decode, receive, request,
  fetch_round,
}
use stackable_odbc_trino.Statement.Streaming.{
  prepend, page_rows, page_reply, remaining, IsStreaming,
}

-- The row that a cursor before the end reads next, and what is left behind it.
pub drop-cons :
    (k : ℕ) (xs ys zs : List Row) (r : Row)
    → k < length xs
    → drop k xs ++ ys ≡ r ∷ zs
    → (get_elem? xs k ≡ some r) × (drop (suc k) xs ++ ys ≡ zs)
drop-cons k [] ys zs r h e = elim h [ ]
drop-cons zero (x ∷ xs) ys zs r h e = (cc, cc)
drop-cons (suc k) (x ∷ xs) ys zs r h e = drop-cons k xs ys zs r (omega arith) e

pub drop_past : (k : ℕ) (xs : List Row) → length xs ≤ k → drop k xs ≡ []
drop_past zero [] h = refl
drop_past zero (x ∷ xs) h = elim h [ ]
drop_past (suc k) [] h = refl
drop_past (suc k) (x ∷ xs) h = drop_past k xs (omega arith)

pub some_inj : {A : Type 0} {a b : A} → some a ≡ some b → a ≡ b
some_inj h = cc

pub drop-ne_nil : (k : ℕ) (xs ys : List Row) → k < length xs → drop k xs ++ ys ≡ [] → ⊥
drop-ne_nil k [] ys h e = elim h [ ]
drop-ne_nil zero (x ∷ xs) ys h e = cc
drop-ne_nil (suc k) (x ∷ xs) ys h e = drop-ne_nil k xs ys (omega arith) e

pub prepend-eq_some :
    (d : Driver) (rows : List Row) (o : Option (List Row)) (all : List Row)
    → prepend d rows o ≡ some all
    → (rest : List Row) × (o ≡ some rest) × (rows ++ rest ≡ all)
unfolding prepend
prepend-eq_some d rows none all h = cc
prepend-eq_some d rows (some rest) all h = (rest, refl, cc)

module _ (d : Driver) where
  -- The rows of a page that decodes replace a batch that has been read.
  decode_reply-IsStreaming :
      (f : ℕ) (r : Result ClientError (List (List d.client.Json))) (st : d.client.State)
      (s : Statement d.Descriptor d.TrinoTy) (w : Store d.client) (all : List Row)
      → s.online ≡ true
      → s.fetch_failed ≡ false
      → (w.cancels s.token).cancelled ≡ false
      → page_rows d s.trino_types s.next_uri (r, st) (remaining d s.trino_types f) ≡ some all
      → (m' : Machine d) × (decode_reply d r (s, record w { client = st }) ≡ (again, m'))
        × IsStreaming d f m' all
  unfolding decode_reply take_rows page_rows
  decode_reply-IsStreaming f (ok rows) st s w all o l u h =
      let (rest, e, joined) =
        prepend-eq_some d (convert_rows d.convert rows s.trino_types)
          (remaining d s.trino_types f s.next_uri st) all h in
      (
        take_rows d rows (s, record w { client = st }),
        refl,
        record { online = o; live = l; uncancelled = u; later = rest; serves = e; unread = joined },
      )
  decode_reply-IsStreaming f (err e) st s w all o l u h = cc

  -- A page that arrives without an error goes on to be decoded.
  receive-IsStreaming :
      (f : ℕ) (r : Result ClientError (Page d.client.Payload)) (st : d.client.State)
      (s : Statement d.Descriptor d.TrinoTy) (w : Store d.client) (all : List Row)
      → s.online ≡ true
      → s.fetch_failed ≡ false
      → (w.cancels s.token).cancelled ≡ false
      → page_reply d s.trino_types (r, st) (remaining d s.trino_types f) ≡ some all
      → (m' : Machine d) × (receive d r (s, record w { client = st }) ≡ (again, m'))
        × IsStreaming d f m' all
  unfolding receive page_reply decode
  receive-IsStreaming f (err e) st s w all o l u h = cc
  receive-IsStreaming f (ok page) st s w all o l u h = elim (Option-cases page.error) [
    | inl e ↦
        let (reply, st') = decode_page_rows d.client page.payload st in
        let (m', done, streams) =
          decode_reply-IsStreaming f reply st' (record s { next_uri = page.next_uri })
            (record w { client = st }) all o l u (simp e at h) in
        (m', simp e done, streams)
    | inr (x, e) ↦ ground arith
  ]

  round-request :
      (url : Text) (m : Machine d)
      → (m.1.cancels m.0.token).cancelled ≡ false
      → length m.0.batch ≤ m.0.batch_cursor
      → m.0.next_uri ≡ some url
      → fetch_round d m ≡ request d url m
  unfolding fetch_round
  round-request url m u b e = ground arith

  request-receive :
      (url : Text) (m : Machine d)
      → m.0.online ≡ true
      → request d url m
        ≡ receive d (d.client.get_next url m.1.client).0 (
          record m.0 { next_uri = none; page_count = (m.0.page_count + 1) % 2 ^ 32 },
          record m.1 { client = (d.client.get_next url m.1.client).1 },
        )
  unfolding request
  request-receive url m o = ground arith

  -- With the batch read and a page to come, a round goes on to that page.
  pub requested :
      (f : ℕ) (url : Text) (m : Machine d) (rows : List Row)
      → IsStreaming d (suc f) m rows
      → length m.0.batch ≤ m.0.batch_cursor
      → m.0.next_uri ≡ some url
      → (m' : Machine d) × (fetch_round d m ≡ (again, m')) × IsStreaming d f m' rows
  unfolding remaining
  requested f url m rows h b e =
      let reply = d.client.get_next url m.1.client in
      let served =
        subst (λ u. remaining d m.0.trino_types (suc f) u m.1.client ≡ some h.later) e h.serves
        ∙ ap some
            (ap (λ l. l ++ h.later) (sym (drop_past m.0.batch_cursor m.0.batch b)) ∙ h.unread) in
      let (m', done, streams) =
        receive-IsStreaming f reply.0 reply.1
          (record m.0 { next_uri = none; page_count = (m.0.page_count + 1) % 2 ^ 32 }) m.1 rows
          h.online h.live h.uncancelled served in
      (m', round-request url m h.uncancelled b e ∙ request-receive url m h.online ∙ done, streams)
