-- ===== src/Sync/Polling/Ending.antt =====
-- The loop ends, since every round sleeps.
use alice_skilltech_tools.Prelude.{
  ℕ, zero, suc, ◌+◌, ◌-◌, ◌≤◌, ◌<◌, Bool, true, false, ◌||◌, not, ◌≡◌, refl, ◌⊎◌, inl, inr, Option,
  none, some, arith, ltb, leb, if_cases,
}
use Prim.{Unit, tt}
use alice_skilltech_tools.Sync.Ingestion.{IngestEnd, raised, answered}
use alice_skilltech_tools.Sync.Polling.{
  Limits, Round, Polling, Next, return_with, go_on, poll_round, poll_rounds, await_ingestion,
  failure, fetch_result, poll_failed, read_status, note_change, same_text, Status,
}

-- A result that says that the file was not ingested.
abbrev pub is_failure : IngestEnd → Bool
is_failure raised = false
is_failure (answered cancelled success timed_out documents_ingested) = not success

-- A failure, or what the fetch of the round gives.
abbrev pub IsReported : Round → IngestEnd → Type 0
IsReported r e = (is_failure e ≡ true) ⊎ (fetch_result r.fetches ≡ e)

unfoldable pub ReturnsReported : Round → Next → Type 0
ReturnsReported r (return_with e) = IsReported r e
ReturnsReported r (go_on p) = Unit

poll_failed-ReturnsReported :
    (limits : Limits) (r : Round) (p : Polling) → ReturnsReported r (poll_failed limits p)
unfolding ReturnsReported poll_failed failure
poll_failed-ReturnsReported limits r p =
    if_cases (ReturnsReported r) (leb limits.max_poll_failures (suc p.consecutive_failures))
      (λ _. inl refl) (λ _. tt)

read_status-ReturnsReported :
    (limits : Limits) (r : Round) (s : Status) (p : Polling)
    → ReturnsReported r (read_status limits r s p)
unfolding ReturnsReported read_status failure
read_status-ReturnsReported limits r s p =
    if_cases (ReturnsReported r) (ltb limits.stale_timeout (r.polled_at - p.last_change_time))
      (λ _. inl refl)
      (λ _.
        if_cases (ReturnsReported r) (same_text s.status (some "completed")) (λ _. inr refl)
          (λ _.
            if_cases (ReturnsReported r) (same_text s.status (some "failed") || s.is_not_found)
              (λ _. inl refl) (λ _. tt)))

poll_round-ReturnsReported :
    (limits : Limits) (r : Round) (p : Polling) → ReturnsReported r (poll_round limits r p)
unfolding ReturnsReported poll_round failure
poll_round-ReturnsReported limits r p =
    if_cases (ReturnsReported r) (ltb limits.absolute_timeout r.elapsed) (λ _. inl refl)
      (λ _.
        if_cases (ReturnsReported r) r.is_cancelled (λ _. inl refl)
          (λ _.
            elim r.poll
              as (λ poll. ReturnsReported r (elim poll [
                | none ↦ poll_failed limits p
                | some s ↦ read_status limits r s (note_change limits r s p)
              ])) [
                | none ↦ poll_failed-ReturnsReported limits r p
                | some s ↦ read_status-ReturnsReported limits r s (note_change limits r s p)
              ]))

-- An end, which is a failure or what the fetch of some round gives.
abbrev pub Ends : (ℕ → Round) → Option IngestEnd → Type 0
Ends rounds result =
    (e : IngestEnd) × (result ≡ some e)
    × ((is_failure e ≡ true) ⊎ ((n : ℕ) × (fetch_result (rounds n).fetches ≡ e)))

reported :
    (rounds : ℕ → Round) (n : ℕ) (e : IngestEnd) → IsReported (rounds n) e → Ends rounds (some e)
reported rounds n e (inl b) = (e, refl, inl b)
reported rounds n e (inr f) = (e, refl, inr (n, f))

poll_rounds-Ends :
    (limits : Limits) (rounds : ℕ → Round) (fuel n : ℕ) (p : Polling)
    → ((m : ℕ) → (rounds m).elapsed + limits.poll_interval ≤ (rounds (suc m)).elapsed)
    → 0 < limits.poll_interval
    → limits.absolute_timeout < (rounds n).elapsed + fuel
    → Ends rounds (poll_rounds limits rounds (suc fuel) n p)
unfolding poll_rounds poll_round ReturnsReported failure
poll_rounds-Ends limits rounds zero n p sleeps positive late =
    (failure true, ground (arith, late), inl refl)
poll_rounds-Ends limits rounds (suc fuel) n p sleeps positive late =
    go (poll_round limits (rounds n) p) (poll_round-ReturnsReported limits (rounds n) p) (λ p'.
      poll_rounds-Ends limits rounds fuel (suc n) p' sleeps positive
        (ground (arith, sleeps n, positive, late)))
  where
    go :
        (next : Next)
        → ReturnsReported (rounds n) next
        → ((p' : Polling) → Ends rounds (poll_rounds limits rounds (suc fuel) (suc n) p'))
        → Ends rounds (elim next [
          | return_with e ↦ some e
          | go_on p' ↦ poll_rounds limits rounds (suc fuel) (suc n) p'
        ])
    go (return_with e) r rest = reported rounds n e r
    go (go_on p') r rest = rest p'

-- If every round of the polling loop lasts at least the poll interval, and the interval is
-- positive: whatever the clock and the service say in each round, the loop ends within two
-- rounds more than the absolute timeout has milliseconds, with a result that is a failure or
-- with what the fetch of some round gives, which is a result or the exception that a null result
-- raises.
pub await_ingestion-Ends :
    (limits : Limits) (rounds : ℕ → Round)
    → ((m : ℕ) → (rounds m).elapsed + limits.poll_interval ≤ (rounds (suc m)).elapsed)
    → 0 < limits.poll_interval
    → Ends rounds (await_ingestion limits rounds)
unfolding await_ingestion
await_ingestion-Ends limits rounds sleeps positive =
    poll_rounds-Ends limits rounds (suc limits.absolute_timeout) 0 _ sleeps positive (ground arith)
