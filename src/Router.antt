-- ===== src/Router.antt =====
-- internal/gateway/destination.go: which engine serves a route, which models a key may ask of it, and
-- the status of the engines. What an engine says of itself (`Info`) is an argument. A destination has
-- the queue's state and its cap, a number here where the source has a function of the engine's `Info`;
-- the state of its back-off is in Images. The bound on a model's name counts bytes, as Go's `len` does.
pub mod Served
pub mod Tests
use Prim.Native.String.{String}
use text.Mathlib.Text.{◌==◌ as str_eq}
use infercat.Common.{
  ℕ, ℤ, pos, max_ℤ, Bool, true, false, not, ◌&&◌, ◌||◌, Option, none, some, List, [], ◌∷◌, ◌++◌,
  if◌then◌else◌, ltb, byte_length,
}
use infercat.Errors.{Code, invalid_request, not_found, model_not_allowed}
use infercat.Keys.{Key, contains, allows_model}
use infercat.Queue.{SlotQueue, counts}

abbrev pub max_model_bytes : ℕ
max_model_bytes = 256

pub record Info : Type 0 where
  pub slots : ℤ
  pub models : List String
  pub healthy : Bool

pub data Transport : Type 0 where
  text_engine audio_engine image_engine : Transport

pub record Destination : Type 0 where
  pub id : String
  pub up : Info
  pub transport : Transport
  pub cap : ℤ
  pub queue : SlotQueue
  pub model : String
  pub image_abandons : ℤ
  pub image_retry_at : ℤ

-- The engines that are configured beside the one for text.
pub record Config : Type 0 where
  pub transcribe : Option Info
  pub transcribe_model : String
  pub speech : Option Info
  pub speech_model : String
  pub embed : Option Info
  pub images : Option Info
  pub image_model : String
  pub models_pinned : List String

pub record Router : Type 0 where
  pub text : Destination
  pub routes : List (String × Destination)
  pub destinations : List Destination
  pub pinned : List String

abbrev pub destination : String → Info → Transport → ℤ → String → Destination
destination id up transport cap model = record {
  id = id;
  up = up;
  transport = transport;
  cap = cap;
  queue = record { in_flight = pos 0; waiters = []; next = 0 };
  model = model;
  image_abandons = pos 0;
  image_retry_at = pos 0;
}

abbrev pub put_route :
    String → Destination → List (String × Destination) → List (String × Destination)
put_route s d [] = (s, d) ∷ []
put_route s d ((t, e) ∷ m) =
    let rest = put_route s d m in if str_eq t s then (t, d) ∷ m else (t, e) ∷ rest

abbrev pub get_route : String → List (String × Destination) → Option Destination
get_route s [] = none
get_route s ((t, d) ∷ m) = let rest = get_route s m in if str_eq t s then some d else rest

-- An engine that is configured takes its route.
unfoldable pub with_engine : String → Option Destination → Router → Router
with_engine route none r = r
with_engine route (some d) r = record r {
  routes = put_route route d r.routes;
  destinations = r.destinations ++ (d ∷ []);
}

abbrev pub text_destination : Info → Destination
text_destination up = destination "text" up text_engine up.slots ""

abbrev pub audio_destination : String → String → Option Info → Option Destination
audio_destination id model none = none
audio_destination id model (some up) = some (destination id up audio_engine up.slots model)

abbrev pub embed_destination : Option Info → Option Destination
embed_destination none = none
embed_destination (some up) = some (destination "embed" up text_engine (max_ℤ (pos 1) up.slots) "")

abbrev pub images_destination : String → Option Info → Option Destination
images_destination model none = none
images_destination model (some up) = some (destination "images" up image_engine (pos 1) model)

abbrev pub text_router : Destination → List String → Router
text_router d pinned = record {
  text = d;
  routes =
      ("/v1/responses", d)
      ∷ ("/v1/chat/completions", d)
      ∷ ("/v1/embeddings", d)
      ∷ ("/v1/models", d)
      ∷ [];
  destinations = d ∷ [];
  pinned = pinned;
}

unfoldable pub new_router : Info → Config → Router
unfolding with_engine
new_router up cfg =
    let d = text_destination up in
    with_engine "/v1/images/generations" (images_destination cfg.image_model cfg.images) (
      with_engine "/v1/embeddings" (embed_destination cfg.embed) (
        with_engine "/v1/audio/speech" (audio_destination "speech" cfg.speech_model cfg.speech) (
          with_engine "/v1/audio/transcriptions"
            (audio_destination "transcribe" cfg.transcribe_model cfg.transcribe)
            (text_router d cfg.models_pinned))))

-- `allowsModel`
abbrev pub allows : Key → List String → String → Bool
allows k [] m = allows_model k m
allows k (p ∷ pinned) m = allows_model k m && contains m (p ∷ pinned)

-- The destination or the code of the error.
pub data Resolved : Type 0 where
  at : Destination → Resolved
  refused : Code → Resolved

-- Only the router's own text engine has pinned models; the ids of destinations differ.
abbrev pub pins : Router → Destination → List String
pins r d = if str_eq d.id r.text.id then r.pinned else []

abbrev pub admit_model : Router → Key → String → Option Destination → Resolved
admit_model r k m none = refused not_found
admit_model r k m (some d) =
    if not (str_eq m "") && not (allows k (pins r d) m) then refused model_not_allowed else at d

unfoldable pub resolve : Router → Key → String → String → Resolved
resolve r k route m =
    if ltb max_model_bytes (byte_length m)
    then refused invalid_request
    else admit_model r k m (get_route route r.routes)

-- `audioModel`: the configured model, or the first that the engine names.
first_named : List String → Option String
first_named [] = none
first_named (m ∷ ms) = let rest = first_named ms in if str_eq m "" then rest else some m

unfoldable pub audio_model : Option Info → String → Option String
unfolding first_named
audio_model none configured = none
audio_model (some up) configured =
    if not up.healthy
    then none
    else if str_eq configured ""
    then first_named up.models
    else some configured

abbrev audio_info : Transport → Info → Option Info
audio_info text_engine up = none
audio_info audio_engine up = some up
audio_info image_engine up = none

-- What `audioModel` answers for a route.
abbrev pub route_model : Option Destination → Option String
route_model none = none
route_model (some d) = audio_model (audio_info d.transport d.up) d.model

pub record DestinationStatus : Type 0 where
  pub id : String
  pub models : List String
  pub slots : ℤ
  pub in_flight : ℤ
  pub waiting : ℕ
  pub image_abandons : ℤ
  pub image_retry_at : ℤ

abbrev is_text : Transport → Bool
is_text text_engine = true
is_text audio_engine = false
is_text image_engine = false

abbrev pub offered : Destination → List String
offered d =
    if not (is_text d.transport) && not (str_eq d.model "") && not (contains d.model d.up.models)
    then d.up.models ++ (d.model ∷ [])
    else d.up.models

abbrev pub status_of : Destination → DestinationStatus
status_of d =
    let (in_flight, waiting) = counts d.queue in
    record {
      id = d.id;
      models = offered d;
      slots = max_ℤ (pos 1) d.up.slots;
      in_flight = in_flight;
      waiting = waiting;
      image_abandons = d.image_abandons;
      image_retry_at = d.image_retry_at;
    }

unfoldable pub snapshots : List Destination → List DestinationStatus
snapshots [] = []
snapshots (d ∷ ds) = status_of d ∷ snapshots ds
