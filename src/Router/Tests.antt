-- ===== src/Router/Tests.antt =====
-- internal/gateway/destination.go: a host with an engine for text and one for embeddings.
use infercat.Common.{byte_length, ◌≡◌, ◌↔◌, refl, true, false, none, some, [], ◌∷◌, pos}
use infercat.Errors.{model_not_allowed, not_found}
use infercat.Keys.{Key, active, allows_model}
use infercat.Limits.{default_limits}
use infercat.Router.{
  Info, Config, Destination, at, refused, text_destination, destination, text_engine, new_router,
  resolve, snapshots, audio_model, status_of,
}
use infercat.Router.Served.{Served, resolve-Served}

abbrev ann : Key
ann = record {
  agent = false;
  id = "k_1";
  name = "ann";
  secret_hash = "digest 1";
  status = active;
  created_at = 0;
  limits = default_limits;
}

abbrev llama : Info
llama = record { slots = pos 2; models = "llama" ∷ "qwen" ∷ []; healthy = true }

abbrev bge : Info
bge = record { slots = pos 0; models = "bge" ∷ []; healthy = true }

abbrev config : Config
config = record {
  transcribe = none;
  transcribe_model = "";
  speech = none;
  speech_model = "";
  embed = some bge;
  images = none;
  image_model = "";
  models_pinned = "llama" ∷ [];
}

abbrev embeds : Destination
embeds = destination "embed" bge text_engine (pos 1) ""

chats :
    resolve (new_router llama config) ann "/v1/chat/completions" "llama"
    ≡ at (text_destination llama)
unfolding resolve new_router allows_model
chats = refl

unpinned :
    resolve (new_router llama config) ann "/v1/chat/completions" "qwen" ≡ refused model_not_allowed
unfolding resolve new_router allows_model
unpinned = refl

-- A letter has the bytes that it has in UTF-8.
accents_counted : byte_length "éé€" ≡ 7
accents_counted = refl

-- The pins of the text engine do not bind the engine for embeddings.
embeds_unpinned : resolve (new_router llama config) ann "/v1/embeddings" "bge" ≡ at embeds
unfolding resolve new_router allows_model
embeds_unpinned = refl

no_speech : resolve (new_router llama config) ann "/v1/audio/speech" "" ≡ refused not_found
unfolding resolve new_router allows_model
no_speech = refl

first_model : audio_model (some bge) "" ≡ some "bge"
unfolding audio_model
first_model = refl

both_listed :
    snapshots (new_router llama config).destinations
    ≡ status_of (text_destination llama) ∷ status_of embeds ∷ []
unfolding snapshots new_router
both_listed = refl

resolve-Served_example :
    (resolve (new_router llama config) ann "/v1/embeddings" "bge" ≡ at embeds)
    ↔ Served llama config ann "/v1/embeddings" "bge" embeds
resolve-Served_example = resolve-Served llama config ann "/v1/embeddings" "bge" embeds
