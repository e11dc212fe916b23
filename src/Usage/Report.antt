-- ===== src/Usage/Report.antt =====
-- internal/usage/aggregate.go: the report over the lines of usage.jsonl, in total, per key and per day.
-- What the JSON decoder makes of a line is an argument; the final sorting of the keys by id, which
-- is there for the printed order only, is left out.
use Prim.Native.String.{String}
use text.Mathlib.Text.{◌==◌ as str_eq}
use infercat.Common.{
  ℕ, zero, suc, ◌-◌, ◌*◌, ◌/◌, Bool, true, false, ◌&&◌, ◌||◌, Option, none, some, List, [], ◌∷◌,
  if◌then◌else◌, ltb, leb,
}
use infercat.Usage.Stats.{
  Event, Stats, empty_stats, add, percentile, resource_meters, accounting_time, Meter,
}

pub record Filter : Type 0 where
  pub key_id : String
  pub since : Option ℕ
  pub until : Option ℕ
  pub days : ℕ

abbrev is_before : Option ℕ → ℕ → Bool
is_before none t = true
is_before (some u) t = ltb t u

abbrev is_after : Option ℕ → ℕ → Bool
is_after none t = true
is_after (some s) t = leb s t

-- `Filter.match`
unfoldable pub matches : Filter → Event → ℕ → Bool
matches f e t =
    is_before f.until t && ((str_eq f.key_id "" || str_eq e.key_id f.key_id) && is_after f.since t)

-- A number of `Stats` by a name: of a key, or of a path by which requests came.
pub record Group : Type 0 where
  pub total : Stats
  pub by_via : List (String × Stats)

abbrev pub empty_group : Group
empty_group = record { total = empty_stats; by_via = [] }

unfoldable pub upsert : {A : Type 0} → A → (A → A) → String → List (String × A) → List (String × A)
upsert fresh g k [] = (k, g fresh) ∷ []
upsert fresh g k ((x, s) ∷ rest) =
    let more = upsert fresh g k rest in if str_eq x k then (x, g s) ∷ rest else (x, s) ∷ more

-- `addVia`
unfoldable pub add_via : Bool → Event → List (String × Stats) → List (String × Stats)
unfolding upsert
add_via meters e by =
    upsert empty_stats (add meters e) (if str_eq e.via "" then "direct" else e.via) by

unfoldable pub add_group : Bool → Event → Group → Group
unfolding add_via
add_group meters e g = record { total = add meters e g.total; by_via = add_via meters e g.by_via }

-- The whole report's `Total` and `ByVia` with its keys, and the same for a day.
pub record Part : Type 0 where
  pub whole : Group
  pub by_key : List (String × Group)

abbrev pub empty_part : Part
empty_part = record { whole = empty_group; by_key = [] }

unfoldable pub add_part : Bool → Event → Part → Part
unfolding add_group upsert
add_part meters e p = record {
  whole = add_group meters e p.whole;
  by_key = upsert empty_group (add_group meters e) e.key_id p.by_key;
}

pub record Report : Type 0 where
  pub all : Part
  pub daily : List Part
  pub malformed : ℕ

-- One entry of a list is changed; there is none out of range.
unfoldable pub change : (Part → Part) → ℕ → List Part → List Part
change g i [] = []
change g zero (p ∷ ps) = g p ∷ ps
change g (suc i) (p ∷ ps) = p ∷ change g i ps

abbrev day_length : ℕ
day_length = 86400 * 1_000_000_000

-- The bucket of a time, where the first day is that of `since`; an earlier time has none.
day_of : Option ℕ → ℕ → Option ℕ
day_of none t = none
day_of (some s) t =
    if leb (s / day_length) (t / day_length) then some (t / day_length - s / day_length) else none

unfoldable pub add_day : (Part → Part) → Option ℕ → List Part → List Part
unfolding change
add_day g none ps = ps
add_day g (some i) ps = change g i ps

-- The body of the loop over the telemetry of a row and its meters.
unfoldable pub add_pass : Filter → Bool → Event → ℕ → Report → Report
unfolding add_day day_of matches
add_pass f meters e at r =
    if matches f e at
    then record r {
      all = add_part meters e r.all;
      daily = add_day (add_part meters e) (day_of f.since at) r.daily;
    }
    else r

abbrev pub no_meters : List Meter → Bool
no_meters [] = true
no_meters (_ ∷ _) = false

unfoldable pub add_event : Filter → Event → Report → Report
unfolding add_pass
add_event f e r =
    let row = add_pass f false e e.ts r in
    if no_meters (resource_meters e) then row else add_pass f true e (accounting_time e) row

-- A line: longer than `maxLine` or not an event, empty, or an event.
pub data Line : Type 0 where
  over_long unparsed blank : Line
  event : Event → Line

unfoldable pub add_line : Filter → Line → Report → Report
unfolding add_event
add_line f over_long r = record r { malformed = suc r.malformed }
add_line f unparsed r = record r { malformed = suc r.malformed }
add_line f blank r = r
add_line f (event e) r = add_event f e r

unfoldable pub add_lines : Filter → List Line → Report → Report
unfolding add_line
add_lines f [] r = r
add_lines f (l ∷ ls) r = add_lines f ls (add_line f l r)

abbrev pub days : ℕ → List Part
days zero = []
days (suc n) = empty_part ∷ days n

-- `emptyReport`; the date of a bucket is its place.
abbrev pub empty_report : Filter → Report
empty_report f = record { all = empty_part; daily = days f.days; malformed = 0 }

-- `Aggregate`, before the percentiles are taken.
unfoldable pub aggregate : Filter → List Line → Report
unfolding add_lines
aggregate f ls = add_lines f ls (empty_report f)

-- `finish`: the four percentiles of one `Stats`, first bytes before totals, medians before 95ths.
pub percentiles : Stats → (ℕ × ℕ) × (ℕ × ℕ)
percentiles s = (
  (percentile s.ttfts 50, percentile s.ttfts 95),
  (percentile s.totals 50, percentile s.totals 95),
)
