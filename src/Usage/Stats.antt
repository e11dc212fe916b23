-- ===== src/Usage/Stats.antt =====
-- internal/usage/usage.go, meters.go and aggregate.go: one event, and the numbers that events add up
-- to. Seconds and meter amounts, floating-point in the source, are whole here; a time is a number of
-- nanoseconds since 1970, and `none` is Go's zero time. A map is a list of its entries.
use Prim.Native.String.{String}
use text.Mathlib.Text.{◌==◌ as str_eq}
use infercat.Common.{
  ℕ, suc, ◌+◌, ◌-◌, ◌*◌, ◌/◌, ℤ, pos, ◌+ℤ◌, eqb_ℤ, Bool, true, false, not, ◌&&◌, ◌||◌, Option, none,
  some, List, [], ◌∷◌, ◌++◌, if◌then◌else◌, ltb, leb, length, get_elem?, min, max,
}
use infercat.Usage.{model_endpoint, class_of}

pub record Meter : Type 0 where
  pub class : String
  pub unit : String
  pub measured : ℤ
  pub charged : ℤ

pub record Event : Type 0 where
  pub settled_at : Option ℕ
  pub meters : Option (List Meter)
  pub kind : String
  pub seconds : ℤ
  pub characters : ℤ
  pub via : String
  pub ts : ℕ
  pub key_id : String
  pub endpoint : String
  pub model : String
  pub status : ℕ
  pub code : String
  pub prompt_tokens : ℤ
  pub completion_tokens : ℤ
  pub ttft_ms : ℕ
  pub total_ms : ℕ

-- `ModelCall`
unfoldable pub model_call : Event → Bool
model_call e =
    not (str_eq e.code "run_handoff") && not (str_eq (class_of (model_endpoint e.endpoint)) "")

abbrev is_zero : ℤ → Bool
is_zero n = eqb_ℤ n (pos 0)

abbrev when : Bool → Meter → List Meter → List Meter
when true m rest = m ∷ rest
when false m rest = rest

-- `ResourceMeters`
unfoldable pub resource_meters : Event → List Meter
resource_meters e =
    let c = class_of (model_endpoint e.endpoint) in
    let n = e.prompt_tokens +ℤ e.completion_tokens in
    elim e.meters [
      | some ms ↦ ms
      | none ↦
          when
            (not (is_zero e.prompt_tokens)
              || (not (is_zero e.completion_tokens) || str_eq c "tokens"))
            (record { class = "tokens"; unit = "tokens"; measured = n; charged = n })
            (when (not (is_zero e.seconds) || (str_eq e.kind "transcription" || str_eq c "audio"))
              (record {
                class = "audio";
                unit = "seconds";
                measured = e.seconds;
                charged = e.seconds;
              })
              (when (not (is_zero e.characters) || (str_eq e.kind "speech" || str_eq c "speech"))
                (record {
                  class = "speech";
                  unit = "characters";
                  measured = e.characters;
                  charged = e.characters;
                })
                []))
    ]

-- `AccountingTime`
pub accounting_time : Event → ℕ
accounting_time e = elim e.settled_at [ none ↦ e.ts | some t ↦ t ]

pub record Stats : Type 0 where
  pub meters : List Meter
  pub models : List (String × ℕ)
  pub seconds : ℤ
  pub characters : ℤ
  pub requests : ℕ
  pub model_calls : ℕ
  pub app_polls : ℕ
  pub errors : ℕ
  pub errors_by_code : List (String × ℕ)
  pub prompt_tokens : ℤ
  pub completion_tokens : ℤ
  pub first_seen : Option ℕ
  pub last_seen : Option ℕ
  pub last_call : Option ℕ
  pub ttfts : List ℕ
  pub totals : List ℕ

abbrev pub empty_stats : Stats
empty_stats = record {
  meters = [];
  models = [];
  seconds = pos 0;
  characters = pos 0;
  requests = 0;
  model_calls = 0;
  app_polls = 0;
  errors = 0;
  errors_by_code = [];
  prompt_tokens = pos 0;
  completion_tokens = pos 0;
  first_seen = none;
  last_seen = none;
  last_call = none;
  ttfts = [];
  totals = [];
}

-- One meter on those of its class so far; the unit stays the first one's.
pub add_meter : Meter → List Meter → List Meter
add_meter m [] = m ∷ []
add_meter m (x ∷ xs) =
    let rest = add_meter m xs in
    if str_eq x.class m.class
    then record x { measured = x.measured +ℤ m.measured; charged = x.charged +ℤ m.charged } ∷ xs
    else x ∷ rest

pub add_meters : List Meter → List Meter → List Meter
unfolding add_meter
add_meters [] xs = xs
add_meters (m ∷ ms) xs = add_meters ms (add_meter m xs)

-- `m[k]++`
pub increment : String → List (String × ℕ) → List (String × ℕ)
increment k [] = (k, 1) ∷ []
increment k ((x, n) ∷ xs) =
    let rest = increment k xs in if str_eq x k then (x, suc n) ∷ xs else (x, n) ∷ rest

abbrev earliest : Option ℕ → ℕ → Option ℕ
earliest none t = some t
earliest (some s) t = if ltb t s then some t else some s

abbrev latest : Option ℕ → ℕ → Option ℕ
latest none t = some t
latest (some s) t = if ltb s t then some t else some s

abbrev sample : Bool → ℕ → List ℕ → List ℕ
sample b n xs = if b && ltb 0 n then xs ++ n ∷ [] else xs

-- `add` of a row's telemetry, which is not a search of the host's.
unfoldable pub add_row : Bool → Event → Stats → Stats
unfolding increment
add_row call e s =
    let failed = leb 400 e.status in
    record s {
      requests = suc s.requests;
      model_calls = if call then suc s.model_calls else s.model_calls;
      models = if call && not (str_eq e.model "") then increment e.model s.models else s.models;
      app_polls = if call then s.app_polls else suc s.app_polls;
      errors = if failed then suc s.errors else s.errors;
      errors_by_code =
          if failed
          then increment (if str_eq e.code "" then "(none)" else e.code) s.errors_by_code
          else s.errors_by_code;
      seconds = s.seconds +ℤ e.seconds;
      characters = s.characters +ℤ e.characters;
      prompt_tokens = s.prompt_tokens +ℤ e.prompt_tokens;
      completion_tokens = s.completion_tokens +ℤ e.completion_tokens;
      ttfts = sample (call && not failed) e.ttft_ms s.ttfts;
      totals = sample (call && not failed) e.total_ms s.totals;
      first_seen = earliest s.first_seen e.ts;
      last_seen = latest s.last_seen e.ts;
      last_call = if call then latest s.last_call e.ts else s.last_call;
    }

-- `add`: the meters of a row, or its telemetry.
unfoldable pub add : Bool → Event → Stats → Stats
unfolding add_row add_meters resource_meters model_call
add true e s = record s { meters = add_meters (resource_meters e) s.meters }
add false e s = if str_eq e.kind "search" then s else add_row (model_call e) e s

unfoldable pub insert : ℕ → List ℕ → List ℕ
insert x [] = x ∷ []
insert x (y ∷ ys) = if leb x y then x ∷ y ∷ ys else y ∷ insert x ys

unfoldable pub sort : List ℕ → List ℕ
unfolding insert
sort [] = []
sort (x ∷ xs) = insert x (sort xs)

-- The nearest rank of `p` per cent of `n`, counted from one.
unfoldable pub rank : ℕ → ℕ → ℕ
rank p n = min (max ((p * n + 99) / 100) 1) n

abbrev pub or_zero : Option ℕ → ℕ
or_zero none = 0
or_zero (some n) = n

unfoldable pub percentile : List ℕ → ℕ → ℕ
unfolding sort rank
percentile v p = or_zero (get_elem? (sort v) (rank p (length v) - 1))
