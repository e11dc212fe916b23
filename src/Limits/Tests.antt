-- ===== src/Limits/Tests.antt =====
-- Defaults on limits that are all zero, and on some that are below zero.
use infercat.Common.{pos, negsuc, ◌≡◌, refl}
use infercat.Limits.{Limits, default_limits, with_defaults, or_default, clamp_unlimited}

abbrev unset : Limits
unset = record default_limits {
  search_per_day = negsuc 6;
  daily_images = pos 0;
  daily_audio_seconds = pos 0;
  rpm = pos 0;
  tpm = negsuc 2;
}

-- A negative number of searches becomes -1; a negative rate stays what it is.
filled_in :
    with_defaults unset ≡ record default_limits { search_per_day = negsuc 0; tpm = negsuc 2 }
unfolding with_defaults or_default clamp_unlimited
filled_in = refl
