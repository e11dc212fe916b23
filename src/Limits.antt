-- ===== src/Limits.antt =====
-- internal/keys/keys.go, store.go and budgets.go: the limits of a key, their defaults, and the
-- budgets that the limiter reads from them. Limits are Go `int`s and may be below zero.
pub mod Defaults
pub mod Tests
use infercat.Common.{ℤ, pos, negsuc, ltb_ℤ, eqb_ℤ, Bool, true, false, List, [], ◌∷◌, if◌then◌else◌}
use Prim.Native.String.{String}

pub record Limits : Type 0 where
  pub search_per_day : ℤ
  pub daily_images : ℤ
  pub max_queued_images : ℤ
  pub daily_audio_seconds : ℤ
  pub daily_speech_chars : ℤ
  pub rpm : ℤ
  pub tpm : ℤ
  pub max_concurrent : ℤ
  pub max_output_tokens : ℤ
  pub max_context : ℤ
  pub daily_tokens : ℤ
  pub models : List String

abbrev pub default_limits : Limits
default_limits = record {
  search_per_day = pos 50;
  daily_images = pos 20;
  max_queued_images = pos 8;
  daily_audio_seconds = pos 3600;
  daily_speech_chars = pos 200000;
  rpm = pos 20;
  tpm = pos 20000;
  max_concurrent = pos 1;
  max_output_tokens = pos 4096;
  max_context = pos 0;
  daily_tokens = pos 200000;
  models = [];
}

-- `if v == 0 { v = d }`
unfoldable pub or_default : ℤ → ℤ → ℤ
or_default v d = if eqb_ℤ v (pos 0) then d else v

-- `if v < 0 { v = -1 }`
unfoldable pub clamp_unlimited : ℤ → ℤ
clamp_unlimited v = if ltb_ℤ v (pos 0) then negsuc 0 else v

unfoldable pub image_defaults : Limits → Limits
image_defaults l = record l {
  search_per_day = clamp_unlimited (or_default l.search_per_day (pos 50));
  daily_images = or_default (clamp_unlimited l.daily_images) (pos 20);
  max_queued_images = or_default (clamp_unlimited l.max_queued_images) (pos 8);
}

unfoldable pub audio_defaults : Limits → Limits
unfolding image_defaults
audio_defaults l = image_defaults (record l {
  daily_audio_seconds = or_default l.daily_audio_seconds (pos 3600);
  daily_speech_chars = or_default l.daily_speech_chars (pos 200000);
})

unfoldable pub with_defaults : Limits → Limits
unfolding audio_defaults
with_defaults limits =
    let l = audio_defaults limits in
    let d = default_limits in
    record l {
      rpm = or_default l.rpm d.rpm;
      tpm = or_default l.tpm d.tpm;
      max_concurrent = or_default l.max_concurrent d.max_concurrent;
      max_output_tokens = or_default l.max_output_tokens d.max_output_tokens;
      daily_tokens = or_default l.daily_tokens d.daily_tokens;
    }

pub data Class : Type 0 where
  tokens audio speech images search : Class

pub data Span : Type 0 where
  minute day : Span

-- The unit of a budget is a label only, and is left out.
pub record Budget : Type 0 where
  pub span : Span
  pub amount : ℤ

-- `Limits.Budgets`, as a function of the class.
unfoldable pub budgets : Limits → Class → List Budget
unfolding audio_defaults
budgets l search = record { span = day; amount = (audio_defaults l).search_per_day } ∷ []
budgets l images = record { span = day; amount = (audio_defaults l).daily_images } ∷ []
budgets l tokens =
    record { span = minute; amount = (audio_defaults l).tpm }
    ∷ record { span = day; amount = (audio_defaults l).daily_tokens }
    ∷ []
budgets l audio = record { span = day; amount = (audio_defaults l).daily_audio_seconds } ∷ []
budgets l speech = record { span = day; amount = (audio_defaults l).daily_speech_chars } ∷ []

abbrev pub same_span : Span → Span → Bool
same_span minute minute = true
same_span day day = true
same_span _ _ = false

-- `Budgets.Amount`: the first budget of that window, or no limit.
unfoldable pub amount : List Budget → Span → ℤ
amount [] span = pos 0
amount (b ∷ bs) span = if same_span b.span span then b.amount else amount bs span
