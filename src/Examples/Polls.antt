-- ===== src/Examples/Polls.antt =====
-- A service that never answers a poll, with the limits of the class.
use alice_skilltech_tools.Prelude.{ℕ, suc, ◌+◌, ◌*◌, ◌≤◌, false, none, arith, ltb→lt, refl}
use alice_skilltech_tools.Sync.Polling.{Round, fetch_raised, default_limits, await_ingestion}
use alice_skilltech_tools.Sync.Polling.Ending.{Ends, await_ingestion-Ends}

abbrev silent : ℕ → Round
silent n = record {
  elapsed = n * 5000;
  is_cancelled = false;
  poll = none;
  polled_at = n * 5000 + 5000;
  fetches = (fetch_raised, fetch_raised, fetch_raised);
}

silent_sleeps : (m : ℕ) → (silent m).elapsed + 5000 ≤ (silent (suc m)).elapsed
silent_sleeps m = omega arith

await_ingestion-Ends_example : Ends silent (await_ingestion default_limits silent)
await_ingestion-Ends_example =
    await_ingestion-Ends default_limits silent silent_sleeps (ltb→lt 0 5000 refl)
