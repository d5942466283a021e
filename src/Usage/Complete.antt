-- ===== src/Usage/Complete.antt =====
-- Complete ledgers of `build_usage_ledger` of eventide/usage.py.
use eventide.Prelude.{
  ◌≡◌, refl, sym, ap, ◌∙◌, List, [], ◌∷◌, ◌++◌, Option, none, some, Bool, true, false, not, ◌&&◌,
  ◌||◌, all, all-append, select, count_of, Dict, values, arith,
}
use eventide.Runtime.{ok, >>=-eq-ok, raise_if-bind, ok-injective}
use eventide.Facts.{
  Usage, UsageBasis, UsageSource, reported, estimated, unknown, input_output, Reference,
}
use eventide.Store.State.{Event}
use eventide.Usage.{usage_snapshot, Snapshot, no_usage}
use eventide.Usage.Ledger.{AttemptKey, AttemptRecord, LegacyEvent, collect_all, new_runs}
use eventide.Usage.Rows.{
  Row, attempt_row, legacy_row, attempt_rows, legacy_rows, payload_of, usage_of, embeds, same_text,
}
use eventide.Usage.Totals.{
  UsageLedger, insert_row, sort_rows, is_source, totals_of, ledger_of, build_usage_ledger,
}

-- A row that is complete was reported.
abbrev pub is_honest : Row → Bool
is_honest r = not r.usage_complete || is_source reported r.usage_source

snapshot-complete :
    (u : Usage) (source : Option UsageSource) (basis : UsageBasis) (s : Snapshot)
    → usage_snapshot u source basis ≡ ok s
    → (not s.complete || is_source reported s.source) ≡ true
unfolding usage_snapshot
snapshot-complete u source basis s h = ground arith

attempt_row-honest :
    (key : AttemptKey) (r : AttemptRecord) (row : Row)
    → attempt_row key r ≡ ok row
    → is_honest row ≡ true
unfolding attempt_row
attempt_row-honest key r row h =
    let ((payload, finished, event), _, h₁) = >>=-eq-ok (payload_of r) _ h in
    let (_, h₂) =
      raise_if-bind (embeds payload.usage_basis && not (same_text payload.kind (some "embedding")))
        _ _ h₁ in
    let observed = usage_of finished payload.usage in
    let (s, snapped, h₃) =
      >>=-eq-ok (usage_snapshot observed payload.usage_source payload.usage_basis) _ h₂ in
    let same = ok-injective h₃ in
    ap is_honest (sym same)
    ∙ snapshot-complete observed payload.usage_source payload.usage_basis s snapped

legacy_row-honest : (e : LegacyEvent) (row : Row) → legacy_row e ≡ ok row → is_honest row ≡ true
unfolding legacy_row
legacy_row-honest e row h =
    let (s, _, h₁) =
      >>=-eq-ok (usage_snapshot (usage_of true e.payload.usage) none input_output) _ h in
    ap is_honest (sym (ok-injective h₁))

both : (a b : Bool) → a ≡ true → b ≡ true → (a && b) ≡ true
both a b h k = ground arith

attempt_rows-honest :
    (attempts : Dict AttemptKey AttemptRecord) (rows : List Row)
    → attempt_rows attempts ≡ ok rows
    → all is_honest rows ≡ true
unfolding attempt_rows
attempt_rows-honest [] rows h = ap (all is_honest) (sym (ok-injective h))
attempt_rows-honest ((key, r) ∷ attempts) rows h =
    let (row, one, h₁) = >>=-eq-ok (attempt_row key r) _ h in
    let (rest, more, h₂) = >>=-eq-ok (attempt_rows attempts) _ h₁ in
    ap (all is_honest) (sym (ok-injective h₂))
    ∙ both (is_honest row) (all is_honest rest) (attempt_row-honest key r row one)
        (attempt_rows-honest attempts rest more)

legacy_rows-honest :
    (legacy : List LegacyEvent) (rows : List Row)
    → legacy_rows legacy ≡ ok rows
    → all is_honest rows ≡ true
unfolding legacy_rows
legacy_rows-honest [] rows h = ap (all is_honest) (sym (ok-injective h))
legacy_rows-honest (e ∷ legacy) rows h =
    let (row, one, h₁) = >>=-eq-ok (legacy_row e) _ h in
    let (rest, more, h₂) = >>=-eq-ok (legacy_rows legacy) _ h₁ in
    ap (all is_honest) (sym (ok-injective h₂))
    ∙ both (is_honest row) (all is_honest rest) (legacy_row-honest e row one)
        (legacy_rows-honest legacy rest more)

all-select : (p q : Row → Bool) (rows : List Row) → all p rows ≡ true → all p (select q rows) ≡ true
all-select p q [] h = refl
all-select p q (r ∷ rows) h = ground (arith, all-select p q rows)

all-insert_row :
    (p : Row → Bool) (r : Row) (rows : List Row)
    → p r ≡ true
    → all p rows ≡ true
    → all p (insert_row r rows) ≡ true
unfolding insert_row
all-insert_row p r [] h k = ground arith
all-insert_row p r (q ∷ rows) h k = ground (arith, all-insert_row p r rows)

all-sort_rows :
    (p : Row → Bool) (rows : List Row) → all p rows ≡ true → all p (sort_rows rows) ≡ true
unfolding sort_rows
all-sort_rows p [] h = refl
all-sort_rows p (r ∷ rows) h =
    ground (arith, all-sort_rows p rows, all-insert_row p r (sort_rows rows))

-- What a complete ledger says of its calls.
pub record IsReported (l : UsageLedger) : Type 0 where
  pub calls : all (λ (r : Row). is_source reported r.usage_source) l.calls ≡ true
  pub nothing_estimated : l.estimated_totals ≡ no_usage
  pub nothing_unknown : l.unknown_attempts ≡ 0
  pub nothing_incomplete : l.incomplete_attempts ≡ 0

all-reported :
    (rows : List Row)
    → all is_honest rows ≡ true
    → all (λ (r : Row). r.usage_complete) rows ≡ true
    → all (λ (r : Row). is_source reported r.usage_source) rows ≡ true
all-reported [] h k = refl
all-reported (r ∷ rows) h k = ground (arith, all-reported rows)

source-only :
    (s : UsageSource)
    → is_source reported s ≡ true
    → (is_source estimated s ≡ false) × (is_source unknown s ≡ false)
source-only reported h = (refl, refl)
source-only estimated h = cc
source-only unknown h = cc

no-estimate :
    (t : Usage) (rows : List Row)
    → all (λ (r : Row). is_source reported r.usage_source) rows ≡ true
    → totals_of estimated t rows ≡ t
unfolding totals_of
no-estimate t [] h = refl
no-estimate t (r ∷ rows) h = ground (arith, no-estimate t rows, source-only r.usage_source)

no-unknown :
    (rows : List Row)
    → all (λ (r : Row). is_source reported r.usage_source) rows ≡ true
    → count_of (λ (r : Row). is_source unknown r.usage_source) rows ≡ 0
no-unknown [] h = refl
no-unknown (r ∷ rows) h = ground (arith, no-unknown rows, source-only r.usage_source)

no-incomplete :
    (rows : List Row)
    → all (λ (r : Row). r.usage_complete) rows ≡ true
    → count_of (λ (r : Row). not r.usage_complete) rows ≡ 0
no-incomplete [] h = refl
no-incomplete (r ∷ rows) h = ground (arith, no-incomplete rows)

ledger_of-IsReported :
    (rows : List Row) (authorities : List Reference)
    → all is_honest rows ≡ true
    → (ledger_of rows authorities).complete ≡ true
    → IsReported (ledger_of rows authorities)
unfolding ledger_of
ledger_of-IsReported rows authorities h k =
    let whole : all (λ (r : Row). r.usage_complete) rows ≡ true = ground arith in
    let calls = all-reported rows h whole in
    record {
      calls = calls;
      nothing_estimated = no-estimate no_usage rows calls;
      nothing_unknown = no-unknown rows calls;
      nothing_incomplete = no-incomplete rows whole;
    }

-- A ledger that calls itself complete is: whatever the log and the filter are, all its calls are
-- reported by the provider, none is unknown or incomplete, and nothing in it is an estimate.
pub build_usage_ledger-IsReported :
    (call_filter : Row → Bool) (events : List Event) (l : UsageLedger)
    → build_usage_ledger call_filter events ≡ ok l
    → l.complete ≡ true
    → IsReported l
unfolding build_usage_ledger
build_usage_ledger-IsReported call_filter events l h k =
    let (c, _, h₁) =
      >>=-eq-ok
        (collect_all (new_runs events) (record { attempts = []; legacy = []; authorities = [] })
          events)
        _ h in
    let (attempts, a, h₂) = >>=-eq-ok (attempt_rows c.attempts) _ h₁ in
    let (legacy, b, h₃) = >>=-eq-ok (legacy_rows (values c.legacy)) _ h₂ in
    let honest : all is_honest (attempts ++ legacy) ≡ true =
      all-append is_honest attempts legacy
      ∙ both _ _ (attempt_rows-honest c.attempts attempts a)
          (legacy_rows-honest (values c.legacy) legacy b) in
    let sorted =
      all-sort_rows is_honest (select call_filter (attempts ++ legacy))
        (all-select is_honest call_filter (attempts ++ legacy) honest) in
    finished (sort_rows (select call_filter (attempts ++ legacy))) c.authorities l sorted
      (ok-injective h₃) k
  where
    finished :
        (rows : List Row) (authorities : List Reference) (l : UsageLedger)
        → all is_honest rows ≡ true
        → ledger_of rows authorities ≡ l
        → l.complete ≡ true
        → IsReported l
    finished rows authorities l h e k =
        rw (← e) (ledger_of-IsReported rows authorities h (rw (← e) at k))
