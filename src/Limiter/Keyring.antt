-- ===== src/Limiter/Keyring.antt =====
-- internal/gateway/limits.go: `limiter`, the states of all keys. The locks make each of its methods
-- one step: the map's is held while a state is found or made, and the state's while it changes.
use Prim.Native.String.{String}
use text.Mathlib.Text.{◌==◌ as str_eq}
use infercat.Common.{ℕ, ℤ, pos, Bool, Option, none, some, List, [], ◌∷◌, ◌+ℤ◌, if◌then◌else◌}
use infercat.Limits.{Limits, Class, tokens, audio, speech, images, search}
use infercat.Limiter.{
  KeyState, MeterState, Admission, Result, empty_key, set_meter, admit_resource, reserve, settle,
  prune, requests, charges,
}

-- `usage.KeyCounters`
pub record Counters : Type 0 where
  pub today_searches : ℤ
  pub today_images : ℤ
  pub today_audio_seconds : ℤ
  pub today_speech_chars : ℤ
  pub in_flight : ℤ
  pub rpm_used : ℕ
  pub tpm_used : ℤ
  pub today_tokens : ℤ
  pub last_seen : Option ℕ

live_today : MeterState → ℤ
live_today m = m.today +ℤ m.reserved

pub counters_of : ℕ → KeyState → Counters
unfolding live_today
counters_of now st =
    let p = prune now st in
    record {
      today_searches = live_today (p.meters search);
      today_images = (p.meters images).today +ℤ pos p.image_holds;
      today_audio_seconds = live_today (p.meters audio);
      today_speech_chars = live_today (p.meters speech);
      in_flight = p.in_flight;
      rpm_used = requests p.log;
      tpm_used = charges (p.meters tokens).log +ℤ (p.meters tokens).reserved;
      today_tokens = live_today (p.meters tokens);
      last_seen = p.last_seen;
    }

-- The map `keys`, as its entries.
abbrev pub Keyring : Type 0
Keyring = List (String × KeyState)

unfoldable pub get : String → Keyring → Option KeyState
get id [] = none
get id ((x, st) ∷ rest) = let more = get id rest in if str_eq x id then some st else more

unfoldable pub put : String → KeyState → Keyring → Keyring
put id st [] = (id, st) ∷ []
put id st ((x, old) ∷ rest) =
    let more = put id st rest in if str_eq x id then (x, st) ∷ rest else (x, old) ∷ more

pub or_empty : Option KeyState → KeyState
or_empty none = empty_key
or_empty (some st) = st

-- `state`: the state of a key, which is made where there is none.
unfoldable pub state : String → Keyring → KeyState
unfolding or_empty
state id ks = or_empty (get id ks)

-- A method on the state of one key, with its answer.
abbrev pub on_key : {R : Type 0} → String → (KeyState → KeyState × R) → Keyring → Keyring × R
on_key id f ks = let (st, r) = f (state id ks) in (put id st ks, r)

unfoldable pub touch : ℕ → String → Keyring → Keyring
touch now id ks = put id (record (state id ks) { last_seen = some now }) ks

unfoldable pub admit : ℕ → String → Limits → Bool → Keyring → Keyring × Result Admission
admit now id lim detached ks = on_key id (admit_resource now lim detached) ks

unfoldable pub reserve_for :
    ℕ → String → Limits → ℤ → ℤ → Admission → Keyring → Keyring × Admission × Result ℤ
reserve_for now id lim prompt out a ks =
    let (st, b, r) = reserve now lim prompt out a (state id ks) in (put id st ks, b, r)

unfoldable pub settle_for : ℕ → String → Admission → Bool → ℤ → Keyring → Keyring
settle_for now id a counted charged ks = put id (settle now a counted charged (state id ks)) ks

-- What the history says of one key: when it was last seen, and the charges of the day by class.
pub record Seed : Type 0 where
  pub key_id : String
  pub last_seen : Option ℕ
  pub charged : List (Class × ℤ)

pub seed_meters : List (Class × ℤ) → (Class → MeterState) → Class → MeterState
seed_meters [] ms = ms
seed_meters ((c, n) ∷ rest) ms = seed_meters rest (set_meter c (record (ms c) { today = n }) ms)

seed_key : ℕ → Seed → KeyState → KeyState
unfolding seed_meters
seed_key midnight s st = record st {
  day = some midnight;
  last_seen = s.last_seen;
  meters = seed_meters s.charged st.meters;
}

-- `seedToday`
unfoldable pub seed_today : ℕ → List Seed → Keyring → Keyring
unfolding seed_key
seed_today midnight [] ks = ks
seed_today midnight (s ∷ ss) ks =
    let rest = seed_today midnight ss in
    if str_eq s.key_id ""
    then rest ks
    else rest (put s.key_id (seed_key midnight s (state s.key_id ks)) ks)

abbrev no_counters : Counters
no_counters = record {
  today_searches = pos 0;
  today_images = pos 0;
  today_audio_seconds = pos 0;
  today_speech_chars = pos 0;
  in_flight = pos 0;
  rpm_used = 0;
  tpm_used = pos 0;
  today_tokens = pos 0;
  last_seen = none;
}

unfoldable pub counters_if : ℕ → Option KeyState → String → Keyring → Keyring × Counters
counters_if now none id ks = (ks, no_counters)
counters_if now (some st) id ks = (put id (prune now st) ks, counters_of now st)

-- `counters`, which prunes the key, and makes none.
unfoldable pub counters : ℕ → String → Keyring → Keyring × Counters
unfolding counters_if
counters now id ks = counters_if now (get id ks) id ks

ids : Keyring → List String
ids [] = []
ids ((id, _) ∷ rest) = id ∷ ids rest

counters_each : ℕ → List String → Keyring → Keyring × List (String × Counters)
unfolding counters
counters_each now [] ks = (ks, [])
counters_each now (id ∷ rest) ks =
    let (one, c) = counters now id ks in
    let (all, cs) = counters_each now rest one in (all, (id, c) ∷ cs)

-- `allCounters`, where the clock stands still.
unfoldable pub all_counters : ℕ → Keyring → Keyring × List (String × Counters)
unfolding counters_each ids
all_counters now ks = counters_each now (ids ks) ks
