-- ===== src/Server/RateLimit.antt =====
-- `check_and_update_rate_limit` of src/server/resource_service.c, run under the mutex. `now` is what
-- `time(NULL)` returned; the shared state is mapped (not NULL) before any worker starts.
pub mod Tally
pub mod Window
use ride_hailing_system.Prelude.{
  ℕ, Bool, true, false, ◌||◌, ◌==◌, if◌then◌else◌, Exec, done, ◌>>=◌, read, set, ℤ, pos, ltb_ℤ,
  leb_ℤ, pos_part, inc_i32,
}
use ride_hailing_system.Server.State.{SharedState, max_clients}

-- The new count: one more within the same second, else 1.
unfoldable pub tally : ℕ → ℕ → ℤ → ℤ
tally now seen count = if seen == now then inc_i32 count else pos 1

module _ {W : Type 0} where
  -- The critical section, for an index inside the arrays.
  unfoldable pub count_request : ℕ → ℕ → SharedState W → Exec (SharedState W × Bool)
  count_request client now state = do
    seen ← read state.client_last_seen client
    count ← read state.client_req_count client
    let count' = tally now seen count
    let last_seen' =
        if seen == now then state.client_last_seen else set state.client_last_seen client now
    done (
      record state {
        client_last_seen = last_seen';
        client_req_count = set state.client_req_count client count';
      },
      ltb_ℤ (pos 3) count',
    )

  -- `true` is a blocked request.
  unfoldable pub check_and_update_rate_limit : ℤ → ℕ → SharedState W → Exec (SharedState W × Bool)
  check_and_update_rate_limit client_id now state =
      if leb_ℤ client_id (pos 0) || leb_ℤ (pos max_clients) client_id
      then done (state, false)
      else count_request (pos_part client_id) now state
