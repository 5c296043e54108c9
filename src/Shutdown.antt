-- ===== src/Shutdown.antt =====
-- server/shutdown.rs: the channel that tells every part to stop. `tokio::sync::watch` is another
-- library: its value, and what a receiver that waits is told.
use kulta.Prelude.{
  Bool, true, false, Option, none, some, List, [], ◌∷◌, ◌≡◌, refl, ◌⊎◌, ◌↔◌, inl, inr,
}

-- What `changed` returns: that there is a new value, or that the sender is gone.
pub data Change : Type 0 where
  changed : Bool → Change
  dropped : Change

-- The value of the channel.
abbrev pub shutdown_channel : Bool
shutdown_channel = false

abbrev pub shutdown : Bool → Bool
shutdown value = true

abbrev pub is_shutdown : Bool → Bool
is_shutdown value = value

-- The loop of `wait`, over what it is told: what is left once it has returned, or nothing while it
-- still waits.
unfoldable pub wait : Bool → List Change → Option (List Change)
wait true changes = some changes
wait false [] = none
wait false (dropped ∷ changes) = some changes
wait false (changed value ∷ changes) = wait value changes

-- A change after which nothing waits.
abbrev pub Stops : Change → Type 0
Stops (changed value) = value ≡ true
Stops dropped = Unit

pub data SomeStops : List Change → Type 0 where
  here : {change : Change} {changes : List Change} → Stops change → SomeStops (change ∷ changes)
  later :
      {change : Change} {changes : List Change} → SomeStops changes → SomeStops (change ∷ changes)

abbrev pub Returned : Option (List Change) → Type 0
Returned o = (rest : List Change) × (o ≡ some rest)

stops_later :
    (value : Bool) (changes : List Change)
    → SomeStops (changed value ∷ changes)
    → (value ≡ true) ⊎ SomeStops changes
stops_later value changes (here h) = inl h
stops_later value changes (later h) = inr h

wait_stops :
    (value : Bool) (changes : List Change)
    → (value ≡ true) ⊎ SomeStops changes
    → Returned (wait value changes)
unfolding wait
wait_stops true changes why = (changes, refl)
wait_stops false [] (inl h) = cc
wait_stops false [] (inr h) = elim h [ ]
wait_stops false (dropped ∷ changes) why = (changes, refl)
wait_stops false (changed value ∷ changes) (inl h) = cc
wait_stops false (changed value ∷ changes) (inr h) =
    wait_stops value changes (stops_later value changes h)

stops_waiting :
    (value : Bool) (changes : List Change)
    → Returned (wait value changes)
    → (value ≡ true) ⊎ SomeStops changes
unfolding wait
stops_waiting true changes r = inl refl
stops_waiting false [] (rest, e) = cc
stops_waiting false (dropped ∷ changes) r = inr (here tt)
stops_waiting false (changed value ∷ changes) r =
    inr (elim (stops_waiting value changes r) [ inl h ↦ here h | inr h ↦ later h ])

-- Waiting ends exactly if the signal has been given before, or some change gives it or says that the
-- sender is gone.
pub wait-Returned :
    (value : Bool) (changes : List Change)
    → Returned (wait value changes) ↔ ((value ≡ true) ⊎ SomeStops changes)
wait-Returned value changes = (stops_waiting value changes, wait_stops value changes)
