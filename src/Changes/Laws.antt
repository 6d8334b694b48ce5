-- ===== src/Changes/Laws.antt =====
-- What a subscriber finds in its channel.
use ciwi.Base.{ℕ, String, Option, none, some, List, [], ◌∷◌, ◌≡◌, refl, eqb, map, All, if-cases}
use ciwi.Changes.{
  Change, ChangeHub, deliver, published, publish, watch, unwatch, receive, remove_subscriber,
  empty_channel,
}

-- A waiting change carries the latest revision, so that a client that reads after it misses
-- nothing.
abbrev pub IsLatest : String → ℕ → Option Change → Type 0
IsLatest instance_id revision none = Unit
IsLatest instance_id revision (some change) =
    (change.revision ≡ revision) × (change.instance_id ≡ instance_id)

abbrev pub IsCurrent : ChangeHub → Type 0
IsCurrent hub = All (λ s. IsLatest hub.instance_id hub.revision s.1) hub.subscribers

deliver-IsLatest :
    (change : Change) (channel : Option Change)
    → IsLatest change.instance_id change.revision (deliver change channel)
deliver-IsLatest change none = (refl, refl)
deliver-IsLatest change (some old) = (refl, refl)

All-map-deliver :
    (change : Change) (subscribers : List (ℕ × Option Change))
    → All
        (λ (s : ℕ × Option Change). IsLatest change.instance_id change.revision s.1)
        (map (λ s. (s.0, deliver change s.1)) subscribers)
All-map-deliver change [] = tt
All-map-deliver change (s ∷ rest) = (deliver-IsLatest change s.1, All-map-deliver change rest)

remove_subscriber-All :
    (P : ℕ × Option Change → Type 0) (id : ℕ) (subscribers : List (ℕ × Option Change))
    → All P subscribers
    → All P (remove_subscriber id subscribers)
unfolding remove_subscriber
remove_subscriber-All P id [] h = tt
remove_subscriber-All P id (s ∷ rest) (hs, h) =
    let others = remove_subscriber-All P id rest h in
    if-cases (All P) (eqb s.0 id) _ _ (λ e. others) (λ e. (hs, others))

empty_channel-All :
    (P : ℕ × Option Change → Type 0)
    → ((id : ℕ) → P (id, none))
    → (id : ℕ) (subscribers : List (ℕ × Option Change)) → All P subscribers
    → All P (empty_channel id subscribers)
unfolding empty_channel
empty_channel-All P empty id [] h = tt
empty_channel-All P empty id (s ∷ rest) (hs, h) =
    let others = empty_channel-All P empty id rest h in
    if-cases (All P) (eqb s.0 id) _ _ (λ e. (empty s.0, h)) (λ e. (hs, others))

-- The hubs that the program reaches.
pub data Reach : ChangeHub → Type 0 where
  start :
      (instance_id : String)
      → Reach (record { instance_id = instance_id; revision = 0; next_id = 0; subscribers = [] })
  published_to :
      {hub : ChangeHub} (now : ℕ) (ids topics : List String)
      → Reach hub
      → Reach (publish now ids topics hub).1
  watched : {hub : ChangeHub} (now : ℕ) → Reach hub → Reach (watch now hub).1
  unwatched : {hub : ChangeHub} (id : ℕ) → Reach hub → Reach (unwatch id hub)
  received : {hub : ChangeHub} (id : ℕ) → Reach hub → Reach (receive id hub)

-- In every reachable hub a change that waits in a channel carries the hub's identity and its
-- latest revision, however many changes were published since it was first filled.
pub Reach-IsCurrent : {hub : ChangeHub} → Reach hub → IsCurrent hub
unfolding publish published watch unwatch receive
Reach-IsCurrent (start instance_id) = tt
Reach-IsCurrent (published_to {hub} now ids topics r) =
    All-map-deliver (published now ids topics hub) hub.subscribers
Reach-IsCurrent (watched {hub} now r) = (
  (refl, refl),
  remove_subscriber-All (λ s. IsLatest hub.instance_id hub.revision s.1) hub.next_id hub.subscribers
      (Reach-IsCurrent r),
)
Reach-IsCurrent (unwatched {hub} id r) =
    remove_subscriber-All (λ s. IsLatest hub.instance_id hub.revision s.1) id hub.subscribers
      (Reach-IsCurrent r)
Reach-IsCurrent (received {hub} id r) =
    empty_channel-All (λ s. IsLatest hub.instance_id hub.revision s.1) (λ i. tt) id hub.subscribers
      (Reach-IsCurrent r)
