-- ===== src/Telemetry/Recording.antt =====
-- What server/src/telemetry.rs records of a request, and what it reads of its headers.
use context_first_docs.Prelude.{
  ℕ, String, none, List, [], ◌∷◌, ◌++◌, ◌≡◌, ◌≢◌, ◌↔◌, refl, arith, true, false, string_eq, eq_iff,
  length, ◌+◌, ◌≤◌, contains,
}
use context_first_docs.Telemetry.{
  HeaderExtractor, get, keys, Poll, pending, ready, Metric, Outcome, RecordServerMetrics, next_poll,
  poll, settle,
}

-- The polls of an executor at the given times, with all answers and all that is recorded.
abbrev pub polls :
    List ℕ → RecordServerMetrics → List (Poll Outcome) × RecordServerMetrics × List Metric
polls [] f = ([], f, [])
polls (now ∷ times) f =
    let (answer, f', now_recorded) = poll now f in
    let (answers, last, recorded) = polls times f' in
    (answer ∷ answers, last, now_recorded ++ recorded)

abbrev is_ready : Poll Outcome → ℕ
is_ready pending = 0
is_ready (ready r) = 1

abbrev pub answered : List (Poll Outcome) → ℕ
answered [] = 0
answered (p ∷ ps) = is_ready p + answered ps

-- A future that has answered records nothing more.
polls-done :
    (times : List ℕ) (f : RecordServerMetrics)
    → f.done ≡ true
    → ((polls times f).2 ≡ []) × (answered (polls times f).0 ≡ 0)
unfolding poll
polls-done [] f done = (refl, refl)
polls-done (now ∷ times) f done = ground (arith, polls-done times f done)

-- One metric for each answer, and one answer at most.
abbrev Balanced : List ℕ → RecordServerMetrics → Type 0
Balanced times f =
    (length (polls times f).2 ≡ answered (polls times f).0) × (answered (polls times f).0 ≤ 1)

settle-Balanced :
    (now : ℕ) (times : List ℕ) (f : RecordServerMetrics) (next : Poll Outcome × List (Poll Outcome))
    → f.done ≡ false
    → Balanced times (record f { inner = next.1 })
    → let (answer, f', recorded) = settle now f next in
      (length (recorded ++ (polls times f').2) ≡ is_ready answer + answered (polls times f').0)
      × (is_ready answer + answered (polls times f').0 ≤ 1)
settle-Balanced now times f (pending, inner) fresh later = ground (arith, later)
settle-Balanced now times f (ready r, inner) fresh later =
    ground (arith, polls-done times (record f { inner = inner; done = true }) refl)

poll-fresh :
    (now : ℕ) (f : RecordServerMetrics)
    → f.done ≡ false
    → poll now f ≡ settle now f (next_poll f.inner)
unfolding poll
poll-fresh now f fresh = ground arith

-- However often the future of a request is polled, it answers at most once and records a metric
-- exactly where it answers.
pub polls-recorded :
    (times : List ℕ) (f : RecordServerMetrics)
    → f.done ≡ false
    → (length (polls times f).2 ≡ answered (polls times f).0) × (answered (polls times f).0 ≤ 1)
polls-recorded [] f fresh = ground arith
polls-recorded (now ∷ times) f fresh =
    let next = next_poll f.inner in
    rw (poll-fresh now f fresh) (
      settle-Balanced now times f next fresh
        (polls-recorded times (record f { inner = next.1 }) fresh))

-- The keys of an extractor are those for which it gives a value.
pub keys_iff :
    (e : HeaderExtractor) (key : String) → (contains (keys e) key ≡ true) ↔ (get e key ≢ none)
unfolding keys get
keys_iff e key = ground (
  arith,
  eq_iff "traceparent" "tracestate",
  eq_iff key "traceparent",
  eq_iff key "tracestate",
  eq_iff "traceparent" key,
  eq_iff "tracestate" key,
)
