-- ===== src/Events/Delivery.antt =====
-- What reaches the sink of the events that a change of status calls for. `HttpEventSink` of
-- controller/cdevents.rs posts them; the HTTP client is another library.
use kulta.Prelude.{
  ◌≡◌, ◌↔◌, Bool, true, false, Option, none, some, List, [], ◌∷◌, ◌++◌, map, All, String,
  if◌then◌else◌, str_eq,
}
use kulta.Crd.{Rollout, RolloutStatus}
use kulta.Events.{EventKind}
use kulta.Events.Build.{Event, Accepts, build_event, with_event}

pub record HttpEventSink : Type 0 where
  pub enabled : Bool
  pub sink_url : Option String

abbrev is_true : Option String → Bool
is_true none = false
is_true (some v) = str_eq v "true"

unfoldable pub new_sink : (String → Option String) → HttpEventSink
new_sink env = record {
  enabled = is_true (env "KULTA_CDEVENTS_ENABLED");
  sink_url = env "KULTA_CDEVENTS_SINK_URL";
}

-- Whether `send` returns without an error; `posts` is whether a request to an address is answered,
-- with whatever status.
module _ (posts : String → Event → Bool) where
  abbrev pub post_to : Option String → Event → Bool
  post_to none event = true
  post_to (some url) event = posts url event

  unfoldable pub send : HttpEventSink → Event → Bool
  send sink event = if sink.enabled then post_to sink.sink_url event else true

module _ (accepts : Accepts) (sends : Event → Bool) (rollout : Rollout)
    (status : RolloutStatus) where
  -- The events of some kinds that reach the sink, the first that cannot be built or sent ending the
  -- sequence.
  abbrev deliver : List EventKind → List Event
  deliver [] = []
  deliver (kind ∷ kinds) =
      with_event accepts sends (build_event accepts kind rollout status) (deliver kinds)

  -- An event of the kind can be built, and is sent.
  abbrev pub Goes : EventKind → Type 0
  Goes kind = (e : Event) × (build_event accepts kind rollout status ≡ some e) × (sends e ≡ true)

  -- The kinds of the events that are delivered, and the kinds that are not.
  pub record Reached (kinds : List EventKind) (events : List Event) : Type 0 where
    pub rest : List EventKind
    pub split : map (λ (e : Event). e.kind) events ++ rest ≡ kinds
    pub all_or_not : (rest ≡ []) ↔ All Goes kinds
