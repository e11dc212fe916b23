-- ===== src/Usage.antt =====
-- internal/usage/endpoints.go: which paths ask an engine to work, and what is counted for them.
pub mod Stats
pub mod Recorder
pub mod Report
pub mod Sums
pub mod Rank
pub mod Split
pub mod Tests
use Prim.Native.String.{String}
use text.Mathlib.Text.{◌==◌ as str_eq}
use infercat.Common.{if◌then◌else◌}

pub data Work : Type 0 where
  chat responses embed transcribe images speech no_work : Work

-- `ModelEndpoint`, with the first word as data; the second is `class_of` of it.
unfoldable pub model_endpoint : String → Work
model_endpoint path =
    if str_eq path "/v1/chat/completions"
    then chat
    else if str_eq path "/v1/responses"
    then responses
    else if str_eq path "/v1/embeddings"
    then embed
    else if str_eq path "/v1/audio/transcriptions"
    then transcribe
    else if str_eq path "/v1/images/generations"
    then images
    else if str_eq path "/v1/audio/speech"
    then speech
    else no_work

unfoldable pub class_of : Work → String
class_of chat = "tokens"
class_of responses = "tokens"
class_of embed = "tokens"
class_of transcribe = "audio"
class_of images = "images"
class_of speech = "speech"
class_of no_work = ""
