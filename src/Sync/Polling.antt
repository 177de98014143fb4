-- ===== src/Sync/Polling.antt =====
-- sync/worker/src/api/haystack.py: `_await_ingestion`, which polls a submitted job of the ingestion service.
--
-- A time is in milliseconds. What the clock and the service say in a round of the loop is a function of
-- the round's number. Progress callbacks, error texts and logging are left out; the result is the one
-- that Sync.Ingestion goes on with, where `raised` is an exception that leaves the loop.
pub mod Ending
use alice_skilltech_tools.Prelude.{
  ℕ, zero, suc, ◌-◌, String, Bool, true, false, not, Option, none, some, if◌then◌else◌, ltb, leb,
  str_eq, ◌==◌, ◌&&◌, ◌||◌,
}
use alice_skilltech_tools.Sync.Ingestion.{IngestEnd, raised, answered}

-- What `get_ingestion_status` returns.
pub record Status : Type 0 where
  pub status : Option String
  pub stage : Option String
  pub progress_pct : Option ℕ
  -- The status has an error with "not found" in it.
  pub is_not_found : Bool

-- A fetch of the result: an exception; an answer whose `result` is null or no object, on which
-- `inner.get` raises AttributeError; or whether it reports success and the documents it counts.
pub data Fetch : Type 0 where
  fetch_raised : Fetch
  fetched_null : Fetch
  fetched : (success : Bool) (documents_created : ℕ) → Fetch

pub record Round : Type 0 where
  -- The time since the start, when the round begins.
  pub elapsed : ℕ
  pub is_cancelled : Bool
  -- none where the poll raises
  pub poll : Option Status
  -- The time since the start, when the poll is back.
  pub polled_at : ℕ
  pub fetches : Fetch × Fetch × Fetch

-- The class attributes, in milliseconds where they are times.
pub record Limits : Type 0 where
  pub poll_interval : ℕ
  pub stale_timeout : ℕ
  pub absolute_timeout : ℕ
  pub max_poll_failures : ℕ

abbrev pub default_limits : Limits
default_limits = record {
  poll_interval = 5000;
  stale_timeout = 900000;
  absolute_timeout = 86400000;
  max_poll_failures = 12;
}

-- The variables of the loop; the snapshot is the status, the stage and the percentage.
pub record Polling : Type 0 where
  pub last_snapshot : Option Status
  pub last_change_time : ℕ
  pub consecutive_failures : ℕ

unfoldable pub same_text : Option String → Option String → Bool
same_text none none = true
same_text (some a) (some b) = str_eq a b
same_text _ _ = false

unfoldable pub same_number : Option ℕ → Option ℕ → Bool
same_number none none = true
same_number (some a) (some b) = a == b
same_number _ _ = false

-- current_snapshot == last_status_snapshot
unfoldable pub is_same_snapshot : Status → Option Status → Bool
is_same_snapshot s none = false
is_same_snapshot s (some old) =
    same_text s.status old.status
    && same_text s.stage old.stage
    && same_number s.progress_pct old.progress_pct

-- IngestionResult with success False.
unfoldable pub failure : Bool → IngestEnd
failure timed_out = answered false false timed_out 0

unfoldable pub read_result : Fetch → Option IngestEnd
read_result fetch_raised = none
read_result fetched_null = some raised
read_result (fetched success documents_created) =
    some (if success then answered false true false documents_created else failure false)

-- The first of three fetches that does not raise.
unfoldable pub fetch_result : Fetch × Fetch × Fetch → IngestEnd
fetch_result (a, b, c) = elim (read_result a) [
  | some e ↦ e
  | none ↦ elim (read_result b) [
    | some e ↦ e
    | none ↦ elim (read_result c) [ some e ↦ e | none ↦ failure false ]
  ]
]

-- A round returns, or the loop goes on.
pub data Next : Type 0 where
  return_with : IngestEnd → Next
  go_on : Polling → Next

module _ (limits : Limits) where
  -- The poll raised.
  unfoldable pub poll_failed : Polling → Next
  poll_failed p =
      if leb limits.max_poll_failures (suc p.consecutive_failures)
      then return_with (failure false)
      else go_on (record p { consecutive_failures = suc p.consecutive_failures })

  unfoldable pub note_change : Round → Status → Polling → Polling
  note_change r s p =
      if is_same_snapshot s p.last_snapshot then record p { consecutive_failures = 0 } else record {
        last_snapshot = some s;
        last_change_time = r.polled_at;
        consecutive_failures = 0;
      }

  -- From the snapshot on.
  unfoldable pub read_status : Round → Status → Polling → Next
  read_status r s p =
      if ltb limits.stale_timeout (r.polled_at - p.last_change_time)
      then return_with (failure true)
      else if same_text s.status (some "completed")
      then return_with (fetch_result r.fetches)
      else if same_text s.status (some "failed") || s.is_not_found
      then return_with (failure false)
      else go_on p

  unfoldable pub poll_round : Round → Polling → Next
  poll_round r p =
      if ltb limits.absolute_timeout r.elapsed
      then return_with (failure true)
      else if r.is_cancelled
      then return_with (answered true false false 0)
      else elim r.poll [ none ↦ poll_failed p | some s ↦ read_status r s (note_change r s p) ]

  -- So many rounds at most, from a round on; none where they are not enough.
  unfoldable pub poll_rounds : (ℕ → Round) → (fuel n : ℕ) → Polling → Option IngestEnd
  poll_rounds rounds zero n p = none
  poll_rounds rounds (suc fuel) n p = elim (poll_round (rounds n) p) [
    | return_with e ↦ some e
    | go_on p' ↦ poll_rounds rounds fuel (suc n) p'
  ]

  -- `_await_ingestion`; one more round than there are milliseconds up to the timeout, and one.
  unfoldable pub await_ingestion : (ℕ → Round) → Option IngestEnd
  await_ingestion rounds =
      poll_rounds rounds (suc (suc limits.absolute_timeout)) 0
        (record { last_snapshot = none; last_change_time = 0; consecutive_failures = 0 })
