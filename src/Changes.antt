-- ===== src/Changes.antt =====
-- internal/application/changes.go: the hub that tells clients what to read again. A subscriber's
-- channel has room for one change, so it is an Option; the mutex makes every method one step, and
-- a subscriber that takes its change is a step of its own. Revisions and ids are uint64 and wrap.
pub mod Laws
use ciwi.Base.{
  ℕ, ◌+◌, ◌%◌, ◌^◌, String, Bool, true, false, Option, none, some, List, [], ◌∷◌, ◌==◌,
  if◌then◌else◌, eqb, map,
}
use ciwi.Base.Unique.{contains, trim_unique}

pub record Change : Type 0 where
  pub instance_id : String
  pub revision : ℕ
  pub topics : List String
  pub job_execution_ids : List String
  pub occurred_at : ℕ
  pub resync : Bool

pub record ChangeHub : Type 0 where
  pub instance_id : String
  pub revision : ℕ
  pub next_id : ℕ
  pub subscribers : List (ℕ × Option Change)

unique_topics_from : List String → List String → List String
unique_topics_from seen [] = []
unique_topics_from seen (topic ∷ topics) =
    let skipped = unique_topics_from seen topics in
    let kept = topic ∷ unique_topics_from (topic ∷ seen) topics in
    if topic == "" then skipped else if contains topic seen then skipped else kept

-- `uniqueTopics`.
unfoldable pub unique_topics : List String → List String
unfolding unique_topics_from
unique_topics topics = unique_topics_from [] topics

-- A full channel is emptied and gets the resync marker.
abbrev pub resync_marker : Change → Change
resync_marker change = record change { topics = []; job_execution_ids = []; resync = true }

abbrev pub deliver : Change → Option Change → Option Change
deliver change none = some change
deliver change (some old) = some (resync_marker change)

abbrev pub next_uint64 : ℕ → ℕ
next_uint64 n = (n + 1) % 2 ^ 64

-- The change that `PublishForJobExecutions` sends.
unfoldable pub published : ℕ → List String → List String → ChangeHub → Change
published now ids topics hub = record {
  instance_id = hub.instance_id;
  revision = next_uint64 hub.revision;
  topics = unique_topics topics;
  job_execution_ids = trim_unique ids;
  occurred_at = now;
  resync = false;
}

-- `PublishForJobExecutions`.
unfoldable pub publish : ℕ → List String → List String → ChangeHub → Change × ChangeHub
publish now ids topics hub =
    let change = published now ids topics hub in
    (
      change,
      record hub {
        revision = next_uint64 hub.revision;
        subscribers = map (λ s. (s.0, deliver change s.1)) hub.subscribers;
      },
    )

-- The snapshot that `Watch` sends first.
abbrev pub initial : ℕ → ChangeHub → Change
initial now hub = record {
  instance_id = hub.instance_id;
  revision = hub.revision;
  topics = [];
  job_execution_ids = [];
  occurred_at = now;
  resync = true;
}

-- `delete(h.subscribers, id)`.
remove_subscriber : ℕ → List (ℕ × Option Change) → List (ℕ × Option Change)
remove_subscriber id [] = []
remove_subscriber id (s ∷ rest) =
    let others = remove_subscriber id rest in if eqb s.0 id then others else s ∷ others

-- `Watch`: the id of the new subscriber, whose channel holds the snapshot.
unfoldable pub watch : ℕ → ChangeHub → ℕ × ChangeHub
unfolding remove_subscriber
watch now hub = (
  hub.next_id,
  record hub {
    next_id = next_uint64 hub.next_id;
    subscribers =
        (hub.next_id, some (initial now hub)) ∷ remove_subscriber hub.next_id hub.subscribers;
  },
)

-- The end of a watch.
unfoldable pub unwatch : ℕ → ChangeHub → ChangeHub
unfolding remove_subscriber
unwatch id hub = record hub { subscribers = remove_subscriber id hub.subscribers }

empty_channel : ℕ → List (ℕ × Option Change) → List (ℕ × Option Change)
empty_channel id [] = []
empty_channel id (s ∷ rest) =
    let others = empty_channel id rest in if eqb s.0 id then (s.0, none) ∷ rest else s ∷ others

-- A subscriber receives what its channel holds.
unfoldable pub receive : ℕ → ChangeHub → ChangeHub
unfolding empty_channel
receive id hub = record hub { subscribers = empty_channel id hub.subscribers }
