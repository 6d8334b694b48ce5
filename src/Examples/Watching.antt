-- ===== src/Examples/Watching.antt =====
-- A client that watches the changes.
use ciwi.Base.{[], ◌∷◌}
use ciwi.Changes.{ChangeHub, publish, watch}
use ciwi.Changes.Laws.{IsCurrent, Reach, start, watched, published_to, Reach-IsCurrent}

abbrev fresh : ChangeHub
fresh = record { instance_id = "server"; revision = 0; next_id = 0; subscribers = [] }

abbrev busy_hub : ChangeHub
busy_hub =
    (publish 3 ("job-1" ∷ []) ("queue" ∷ []) (publish 2 [] ("agents" ∷ []) (watch 1 fresh).1).1).1

busy_hub_reached : Reach busy_hub
busy_hub_reached =
    published_to 3 ("job-1" ∷ []) ("queue" ∷ [])
      (published_to 2 [] ("agents" ∷ []) (watched 1 (start "server")))

Reach-IsCurrent_example : IsCurrent busy_hub
Reach-IsCurrent_example = Reach-IsCurrent busy_hub_reached
