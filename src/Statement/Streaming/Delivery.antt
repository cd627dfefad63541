-- ===== src/Statement/Streaming/Delivery.antt =====
-- A whole run of fetches against the rows of all pages.
use stackable_odbc_trino.Base.{
  ℕ, zero, suc, ◌≤◌, ◌<◌, ◌≡◌, false, List, [], ◌∷◌, some, arith, length,
}
use stackable_odbc_trino.Statement.State.{Row}
use stackable_odbc_trino.Statement.Fetch.{Driver, Machine, fetch_loop, fetch}
use stackable_odbc_trino.Statement.Streaming.{IsStreaming, keep_row, gather, collect}
use stackable_odbc_trino.Statement.Streaming.Rounds.{fetch_loop-Fetched}

module _ (d : Driver) where
  fetch_live :
      (fuel : ℕ) (m : Machine d) → m.0.fetch_failed ≡ false → fetch d fuel m ≡ fetch_loop d fuel m
  unfolding fetch
  fetch_live fuel m l = simp l

  -- While nobody cancels and every request succeeds, an application that fetches until the end of
  -- the data gets exactly the unread rows of the batch and of all later pages, in order, however
  -- many of the pages are empty; it takes one fetch for each row and one for the end, and each fetch
  -- needs at most one round more than there are pages.
  pub collect-IsStreaming :
      (rows : List Row) (count fuel f : ℕ) (m : Machine d)
      → f ≤ fuel
      → length rows < count
      → IsStreaming d f m rows
      → collect d count (suc fuel) m ≡ some rows
  unfolding collect gather keep_row
  collect-IsStreaming rows zero fuel f m b l h = elim l [ ]
  collect-IsStreaming [] (suc count) fuel f m b l h =
      let (m', done) = fetch_loop-Fetched d fuel f m [] b h in
      rw (fetch_live (suc fuel) m h.live, done)
  collect-IsStreaming (r ∷ rows) (suc count) fuel f m b l h =
      let (f', m', b', done, here, streams) = fetch_loop-Fetched d fuel f m (r ∷ rows) b h in
      let rest = collect-IsStreaming rows count fuel f' m' b' (omega arith) streams in
      rw (fetch_live (suc fuel) m h.live, done, here, rest)
