-- ===== src/Router/Served.antt =====
-- internal/gateway/destination.go: which engine serves a route, whatever engines are configured, and
-- which models get there.
use Prim.Native.String.{String}
use text.Mathlib.Text.{◌==◌ as str_eq}
use text.Mathlib.TextEquality.{eq_iff}
use infercat.Common.{
  ◌≡◌, refl, subst, ◌≤◌, ◌⊎◌, ◌↔◌, ◌∙◌, ap, sym, ltb→ge, ge→ltb, inl, inr, Bool, true, false, not,
  ◌&&◌, ◌||◌, Option, none, some, List, [], ◌∷◌, if◌then◌else◌, byte_length, arith, Bool-cases, ltb,
}
use infercat.Errors.{Code, model_not_allowed, invalid_request}
use infercat.Keys.{Key}
use infercat.Router.{
  Info, Destination, Config, Router, Resolved, at, refused, get_route, put_route, with_engine,
  text_destination, text_router, audio_destination, embed_destination, images_destination,
  new_router, resolve, admit_model, allows, pins, max_model_bytes,
}

abbrev or_else : Option Destination → Destination → Destination
or_else none d = d
or_else (some e) d = e

-- The engine for a route: the text engine has the routes of text, the embedding engine has its own
-- route where there is one, and each other engine has the route of what it does.
abbrev pub engine_for : Info → Config → String → Option Destination
engine_for up cfg route =
    if str_eq "/v1/responses" route
      || str_eq "/v1/chat/completions" route
      || str_eq "/v1/models" route
    then some (text_destination up)
    else if str_eq "/v1/embeddings" route
    then some (or_else (embed_destination cfg.embed) (text_destination up))
    else if str_eq "/v1/audio/transcriptions" route
    then audio_destination "transcribe" cfg.transcribe_model cfg.transcribe
    else if str_eq "/v1/audio/speech" route
    then audio_destination "speech" cfg.speech_model cfg.speech
    else if str_eq "/v1/images/generations" route
    then images_destination cfg.image_model cfg.images
    else none

get_route-put_route :
    (s t : String) (d : Destination) (m : List (String × Destination))
    → get_route s (put_route t d m) ≡ (if str_eq t s then some d else get_route s m)
get_route-put_route s t d [] = refl
get_route-put_route s t d ((j, e) ∷ m) =
    ground (arith, get_route-put_route s t d m, eq_iff j t, eq_iff j s, eq_iff t s)

-- A route goes to the engine that is configured for it, or to the one that it had.
abbrev pick : Bool → Option Destination → Option Destination → Option Destination
pick b o rest = if b then elim o [ none ↦ rest | some d ↦ some d ] else rest

get_route-with_engine :
    (s t : String) (o : Option Destination) (r : Router)
    → get_route s (with_engine t o r).routes ≡ pick (str_eq t s) o (get_route s r.routes)
unfolding with_engine
get_route-with_engine s t none r = ground arith
get_route-with_engine s t (some d) r = get_route-put_route s t d r.routes

pick-none : (o : Option Destination) → pick true o none ≡ o
pick-none none = refl
pick-none (some d) = refl

pick-some : (o : Option Destination) (d : Destination) → pick true o (some d) ≡ some (or_else o d)
pick-some none d = refl
pick-some (some e) d = refl

module _ (up : Info) (cfg : Config) where
  abbrev picked : String → Option Destination
  picked s =
      pick (str_eq "/v1/images/generations" s) (images_destination cfg.image_model cfg.images) (
        pick (str_eq "/v1/embeddings" s) (embed_destination cfg.embed) (
          pick (str_eq "/v1/audio/speech" s)
            (audio_destination "speech" cfg.speech_model cfg.speech)
            (pick (str_eq "/v1/audio/transcriptions" s)
              (audio_destination "transcribe" cfg.transcribe_model cfg.transcribe)
              (get_route s (text_router (text_destination up) cfg.models_pinned).routes))))

  new_router-picks : (s : String) → get_route s (new_router up cfg).routes ≡ picked s
  unfolding new_router
  new_router-picks s =
      let i = images_destination cfg.image_model cfg.images in
      let e = embed_destination cfg.embed in
      let p = audio_destination "speech" cfg.speech_model cfg.speech in
      let t = audio_destination "transcribe" cfg.transcribe_model cfg.transcribe in
      get_route-with_engine s "/v1/images/generations" i _
      ∙ ap (pick (str_eq "/v1/images/generations" s) i) (
          get_route-with_engine s "/v1/embeddings" e _
          ∙ ap (pick (str_eq "/v1/embeddings" s) e) (
              get_route-with_engine s "/v1/audio/speech" p _
              ∙ ap (pick (str_eq "/v1/audio/speech" s) p) (
                  get_route-with_engine s "/v1/audio/transcriptions" t
                    (text_router (text_destination up) cfg.models_pinned))))

  abbrev Same : String → Type 0
  Same s = picked s ≡ engine_for up cfg s

  -- What holds of a route holds of a text that is equal to it.
  known : (t s : String) → Same t → (str_eq t s ≡ false → Same s) → Same s
  known t s same other = elim (Bool-cases (str_eq t s)) [
    | inl y ↦ subst Same ((eq_iff t s).0 y) same
    | inr y ↦ other y
  ]

  picked-engine_for : (s : String) → Same s
  picked-engine_for s =
      known "/v1/images/generations" s (pick-none (images_destination cfg.image_model cfg.images))
        (λ a.
          known "/v1/embeddings" s (pick-some (embed_destination cfg.embed) (text_destination up))
            (λ b.
              known "/v1/audio/speech" s
                (pick-none (audio_destination "speech" cfg.speech_model cfg.speech))
                (λ c.
                  known "/v1/audio/transcriptions" s
                    (pick-none (audio_destination "transcribe" cfg.transcribe_model cfg.transcribe))
                    (λ d. rw (a, b, c, d) (ground arith)))))

text-with_engine :
    (t : String) (o : Option Destination) (r : Router) → (with_engine t o r).text ≡ r.text
unfolding with_engine
text-with_engine t none r = refl
text-with_engine t (some d) r = refl

pinned-with_engine :
    (t : String) (o : Option Destination) (r : Router) → (with_engine t o r).pinned ≡ r.pinned
unfolding with_engine
pinned-with_engine t none r = refl
pinned-with_engine t (some d) r = refl

-- The models that are pinned on the text engine are so on no other.
abbrev pub pins_of : Config → Destination → List String
pins_of cfg d = if str_eq d.id "text" then cfg.models_pinned else []

pins-new_router :
    (up : Info) (cfg : Config) (d : Destination) → pins (new_router up cfg) d ≡ pins_of cfg d
unfolding new_router
pins-new_router up cfg d = simp (text-with_engine, pinned-with_engine)

-- What a request needs to get_route to a destination.
abbrev pub Served : Info → Config → Key → String → String → Destination → Type 0
Served up cfg k route m d =
    (byte_length m ≤ max_model_bytes)
    × (engine_for up cfg route ≡ some d)
    × ((m ≡ "") ⊎ (allows k (pins_of cfg d) m ≡ true))

-- A guard that refuses, and what comes behind it.
guard_iff :
    (b : Bool) (c : Code) (z : Resolved) (d : Destination)
    → ((if b then refused c else z) ≡ at d) ↔ ((b ≡ false) × (z ≡ at d))
guard_iff true c z d = ((λ e. absurd (cc)), λ p. absurd (ground (arith, p)))
guard_iff false c z d = ((λ e. (refl, e)), λ p. p.1)

asks_iff :
    (m : String) (a : Bool) → ((not (str_eq m "") && not a) ≡ false) ↔ ((m ≡ "") ⊎ (a ≡ true))
asks_iff m a = ground (arith, eq_iff m "")

at-injective : (x d : Destination) → at x ≡ at d → x ≡ d
at-injective x d e = ap (λ (r : Resolved). elim r [ at y ↦ y | refused c ↦ x ]) e

some-injective : (x d : Destination) → some x ≡ some d → x ≡ d
some-injective x d e = ap (λ (o : Option Destination). elim o [ some y ↦ y | none ↦ x ]) e

module _ (r : Router) (k : Key) (m : String) (d : Destination) where
  abbrev Asks : Destination → Type 0
  Asks x = (m ≡ "") ⊎ (allows k (pins r x) m ≡ true)

  admit_model_iff :
      (o : Option Destination) → (admit_model r k m o ≡ at d) ↔ ((o ≡ some d) × Asks d)
  admit_model_iff none = ((λ e. absurd (cc)), λ p. absurd (ground (arith, p)))
  admit_model_iff (some x) =
      let asks = asks_iff m (allows k (pins r x) m) in
      let gate =
        guard_iff (not (str_eq m "") && not (allows k (pins r x) m)) model_not_allowed (at x) d in
      (
        (λ e.
            let (b, y) = gate.0 e in
            let z = at-injective x d y in (ap some z, subst Asks z (asks.0 b))),
        λ p. let z = some-injective x d p.0 in gate.1 (asks.1 (subst Asks (sym z) p.1), ap at z),
      )

-- Whatever engines are configured, a request gets to a destination exactly if its model's name has
-- at most 256 bytes, the destination is the engine for its route, and the request names no model or
-- one that the key may use and, on the text engine, that is pinned, if models are pinned.
pub resolve-Served :
    (up : Info) (cfg : Config) (k : Key) (route m : String) (d : Destination)
    → (resolve (new_router up cfg) k route m ≡ at d) ↔ Served up cfg k route m d
unfolding resolve
resolve-Served up cfg k route m d =
    let r = new_router up cfg in
    let o = get_route route r.routes in
    let e : o ≡ engine_for up cfg route =
      new_router-picks up cfg route ∙ picked-engine_for up cfg route in
    let same = pins-new_router up cfg d in
    let outer =
      guard_iff (ltb max_model_bytes (byte_length m)) invalid_request (admit_model r k m o) d in
    let inner = admit_model_iff r k m d o in
    (
      (λ q.
          let (b, y) = outer.0 q in
          let (z, w) = inner.0 y in
          (
            ltb→ge max_model_bytes (byte_length m) b,
            sym e ∙ z,
            subst (λ ps. (m ≡ "") ⊎ (allows k ps m ≡ true)) same w,
          )),
      λ q. outer.1 (
        ge→ltb max_model_bytes (byte_length m) q.0,
        inner.1 (e ∙ q.1, subst (λ ps. (m ≡ "") ⊎ (allows k ps m ≡ true)) (sym same) q.2),
      ),
    )
