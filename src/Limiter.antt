-- ===== src/Limiter.antt =====
-- internal/gateway/limits.go: the in-memory limits of one key. A time is a number of nanoseconds
-- since 1970 UTC, and `none` is Go's zero time. Meter amounts are whole (tokens); the maps of the
-- source are total here, with a zero meter for a class that has no entry.
pub mod Window
pub mod Admit
pub mod History
pub mod Seqs
pub mod Reserve
pub mod Grant
pub mod Ledger
pub mod Rate
pub mod Retry
pub mod Ceiling
pub mod Tests
pub mod Keyring
use infercat.Common.{
  ℕ, ◌+◌, ◌-◌, ◌*◌, ◌/◌, ◌%◌, ◌^◌, ℤ, pos, ◌+ℤ◌, ◌-ℤ◌, ltb_ℤ, leb_ℤ, max_ℤ, Bool, true, false, not,
  ◌&&◌, Option, none, some, List, [], ◌∷◌, ◌++◌, if◌then◌else◌, ltb, leb, ◌==◌,
}
use infercat.Errors.{Code, GwError, errf}
use infercat.Limits.{
  Limits, Class, tokens, audio, speech, images, search, budgets, amount, minute, day,
}
use infercat.Fit.{fit_budget, floor_for}

abbrev pub second : ℕ
second = 1_000_000_000

abbrev pub window : ℕ
window = 60 * second

abbrev pub day_length : ℕ
day_length = 86400 * second

pub record LogEntry : Type 0 where
  pub t : ℕ
  pub req : ℕ
  pub seq : ℕ

pub record MeterCharge : Type 0 where
  pub t : ℕ
  pub amount : ℤ

pub record MeterState : Type 0 where
  pub today : ℤ
  pub reserved : ℤ
  pub log : List MeterCharge

abbrev pub empty_meter : MeterState
empty_meter = record { today = pos 0; reserved = pos 0; log = [] }

pub record KeyState : Type 0 where
  pub image_holds : ℕ  -- how many image holds are live
  pub log : List LogEntry
  pub seq : ℕ  -- uint64
  pub in_flight : ℤ
  pub day : Option ℕ
  pub last_seen : Option ℕ
  pub meters : Class → MeterState

abbrev pub empty_key : KeyState
empty_key = record {
  image_holds = 0;
  log = [];
  seq = 0;
  in_flight = pos 0;
  day = none;
  last_seen = none;
  meters = λ _. empty_meter;
}

abbrev same_class : Class → Class → Bool
same_class tokens tokens = true
same_class audio audio = true
same_class speech speech = true
same_class images images = true
same_class search search = true
same_class _ _ = false

-- Writing one entry of the map of meters.
abbrev pub set_meter : Class → MeterState → (Class → MeterState) → Class → MeterState
set_meter c m ms d = if same_class c d then m else ms d

-- `!t.After(now.Add(-window))`: the entry has left the window.
abbrev pub expired : ℕ → ℕ → Bool
expired now t = leb (t + window) now

-- The loops of `prune` drop a prefix.
unfoldable pub drop_entries : ℕ → List LogEntry → List LogEntry
drop_entries now [] = []
drop_entries now (e ∷ es) = if expired now e.t then drop_entries now es else e ∷ es

unfoldable pub drop_charges : ℕ → List MeterCharge → List MeterCharge
drop_charges now [] = []
drop_charges now (c ∷ cs) = if expired now c.t then drop_charges now cs else c ∷ cs

abbrev pub midnight : ℕ → ℕ
midnight now = now - now % day_length

abbrev pub same_day : Option ℕ → ℕ → Bool
same_day none d = false
same_day (some e) d = d == e

pub prune_meter : ℕ → Bool → MeterState → MeterState
prune_meter now same m = record m {
  log = drop_charges now m.log;
  today = if same then m.today else pos 0;
}

pub prune : ℕ → KeyState → KeyState
unfolding prune_meter
prune now st = record st {
  log = drop_entries now st.log;
  meters = λ c. prune_meter now (same_day st.day (midnight now)) (st.meters c);
  day = some (midnight now);
}

unfoldable pub requests : List LogEntry → ℕ
requests [] = 0
requests (e ∷ es) = e.req + requests es

unfoldable pub charges : List MeterCharge → ℤ
charges [] = pos 0
charges (c ∷ cs) = c.amount +ℤ charges cs

-- `math.Ceil` of the seconds between, and at least 1.
abbrev pub seconds_until : ℕ → ℕ → ℕ
seconds_until t now = let s = (t - now + (second - 1)) / second in if ltb s 1 then 1 else s

unfoldable pub oldest : List LogEntry → Option ℕ
oldest [] = none
oldest (e ∷ es) = if e.req == 1 then some e.t else oldest es

-- The zero time is long before any window: `secondsUntil` gives 1 for it.
abbrev until_expiry : Option ℕ → ℕ → ℕ
until_expiry none now = 1
until_expiry (some t) now = seconds_until (t + window) now

pub record Admission : Type 0 where
  pub detached : Bool
  pub seq : ℕ
  pub reserved : ℤ

pub data Result (A : Type 0) : Type 0 where
  ok : A → Result A
  err : GwError → Result A

pub concurrency_error : ℤ → ℤ → GwError
concurrency_error most n = record {
  code = Code.concurrency_limited;
  retry_after = 1;
  limit = most;
  in_flight = n;
}

pub busy : Limits → Bool → KeyState → Bool
busy lim detached st =
    not detached && (ltb_ℤ (pos 0) lim.max_concurrent && leb_ℤ lim.max_concurrent st.in_flight)

pub rate_full : Limits → KeyState → Bool
rate_full lim st = ltb_ℤ (pos 0) lim.rpm && leb_ℤ lim.rpm (pos (requests st.log))

-- What a successful admission writes.
pub count_admission : ℕ → Bool → KeyState → KeyState
count_admission now detached st =
    let next = (st.seq + 1) % 2 ^ 64 in
    record st {
      in_flight = if detached then st.in_flight else st.in_flight +ℤ pos 1;
      seq = next;
      log = st.log ++ record { t = now; req = 1; seq = next } ∷ [];
    }

-- `admitResource`; `admit` is the call with `detached` false.
pub admit_resource : ℕ → Limits → Bool → KeyState → KeyState × Result Admission
unfolding busy rate_full count_admission concurrency_error
admit_resource now lim detached st =
    let p = record (prune now st) { last_seen = some now } in
    if busy lim detached p
    then (p, err (concurrency_error lim.max_concurrent p.in_flight))
    else if rate_full lim p
    then (p, err (errf Code.rate_limited (until_expiry (oldest p.log) now)))
    else let q = count_admission now detached p in
      (q, ok (record { detached = detached; seq = q.seq; reserved = pos 0 }))

-- The walk over the token log, oldest first, until the request would fit.
unfoldable pub retry_walk : ℤ → ℤ → ℕ → ℤ → List MeterCharge → ℕ
retry_walk most need now remaining [] =
    if ltb_ℤ most (remaining +ℤ need) then seconds_until (now + window) now else 1
retry_walk most need now remaining (c ∷ cs) =
    let left = remaining -ℤ c.amount in
    let rest = retry_walk most need now left cs in
    if leb_ℤ (left +ℤ need) most then seconds_until (c.t + window) now else rest

abbrev pub token_budget : Limits → ℤ
token_budget lim = amount (budgets lim tokens) minute

abbrev pub day_budget : Limits → ℤ
day_budget lim = amount (budgets lim tokens) day

abbrev pub next_midnight : Option ℕ → ℕ → ℕ
next_midnight none now = 1
next_midnight (some d) now = seconds_until (d + day_length) now

-- The worst case goes on the admission and on the key's reservations.
pub put_reservation : ℤ → ℤ → Admission → KeyState → KeyState × Admission × Result ℤ
put_reservation prompt out a st =
    let m = st.meters tokens in
    let r = prompt +ℤ max_ℤ out (pos 0) in
    (
      record st { meters = set_meter tokens (record m { reserved = m.reserved +ℤ r }) st.meters },
      record a { reserved = r },
      ok out,
    )

-- The part of `reserve` that holds the daily budget.
pub reserve_day : ℕ → Limits → ℤ → ℤ → Admission → KeyState → KeyState × Admission × Result ℤ
reserve_day now lim prompt out a p =
    let m = p.meters tokens in
    let fit = fit_budget (day_budget lim) (m.today +ℤ m.reserved) prompt out in
    if fit.1
    then put_reservation prompt fit.0 a p
    else (p, a, err (errf Code.budget_exhausted (next_midnight p.day now)))

pub reserve : ℕ → Limits → ℤ → ℤ → Admission → KeyState → KeyState × Admission × Result ℤ
reserve now lim prompt out a st =
    let p = prune now st in
    let m = p.meters tokens in
    let live = charges m.log +ℤ m.reserved in
    let need = prompt +ℤ floor_for out in
    let fit = fit_budget (token_budget lim) live prompt out in
    if fit.1
    then reserve_day now lim prompt fit.0 a p
    else (p, a, err (errf Code.rate_limited (retry_walk (token_budget lim) need now live m.log)))

-- The first admission entry of this seq is removed.
unfoldable pub remove_entry : ℕ → List LogEntry → List LogEntry
remove_entry seq [] = []
remove_entry seq (e ∷ es) = if (e.req == 1) && (e.seq == seq) then es else e ∷ remove_entry seq es

pub charge_meter : ℕ → ℤ → MeterState → MeterState
charge_meter now charged m =
    if ltb_ℤ (pos 0) charged
    then record m {
      log = m.log ++ record { t = now; amount = charged } ∷ [];
      today = m.today +ℤ charged;
    }
    else m

pub settle : ℕ → Admission → Bool → ℤ → KeyState → KeyState
unfolding charge_meter
settle now a counted charged st =
    let p = prune now st in
    let m = p.meters tokens in
    let freed = record m { reserved = m.reserved -ℤ a.reserved } in
    record p {
      in_flight = if a.detached then p.in_flight else p.in_flight -ℤ pos 1;
      log = if counted then p.log else remove_entry a.seq p.log;
      meters = set_meter tokens (charge_meter now charged freed) p.meters;
    }
