-- ===== src/Session/Examples.antt =====
-- The theorems on sessions at concrete inputs.
use wroom.Common.{ℕ, [], ◌∷◌, Option, none, some, ◌≡◌, refl, leb, ◌-◌, inl}
use wroom.Registry.Types.{Registry}
use wroom.Registry.{new}
use wroom.Registry.Calls.{run, joins}
use wroom.Registry.Bounds.Operations.{run-new-IsBounded}
use wroom.Session.Messages.{ClientMessage}
use wroom.Session.Machine.{Session, Env, Clocks, joined, returned, empty_park, clean}
use wroom.Session.Machine.Handlers.{session_new, handle, close, remove_from_room, peers_of}
use wroom.Session.Soundness.{EndsSound, handle-EndsSound, session_new-IsSound}
use wroom.Session.Ownership.{EndsByOwn, handle-EndsByOwn}
use wroom.Session.Closing.{close_again}

-- Every token names a room and its display name; the bucket counts whole messages.
abbrev open_house : Env
open_house = record {
  verify = λ token. some (record { room_id = token; display_name = token });
  Tokens = ℕ;
  burst = 5;
  refill = λ tokens elapsed. 5;
  affords_one = λ tokens. leb 1 tokens;
  spend_one = λ tokens. tokens - 1;
}

abbrev first_clocks : Clocks
first_clocks = record { now = 10; wall = 1000 }

abbrev join_lobby : Option ClientMessage
join_lobby = some (ClientMessage.join (record { token = b'l' ∷ b'o' ∷ []; publisher_offer = none }))

handle-EndsSound_example :
    EndsSound (handle open_house first_clocks join_lobby (session_new open_house 0) new)
handle-EndsSound_example =
    handle-EndsSound open_house (session_new open_house 0) new first_clocks join_lobby tt
      (session_new-IsSound open_house 0 new)

handle-EndsByOwn_example :
    EndsByOwn
      (session_new open_house 0)
      new
      (handle open_house first_clocks join_lobby (session_new open_house 0) new)
handle-EndsByOwn_example =
    handle-EndsByOwn open_house (session_new open_house 0) new first_clocks join_lobby

abbrev lobby : Registry
lobby = run new (joins (b'l' ∷ []) (b'n' ∷ []) ∷ [])

abbrev member : Session ℕ
member = record {
  state = joined;
  participant_id = some (b'p' ∷ b'0' ∷ []);
  room_id = some (b'l' ∷ []);
  display_name = some (b'n' ∷ []);
  transport = empty_park;
  transport_dirty = clean;
  chat_seq = 0;
  chat_tokens = 5;
  chat_refill = 0;
}

close_again_example :
    close (remove_from_room member lobby).1.0 (remove_from_room member lobby).1.1
    ≡ returned (remove_from_room member lobby).1.0 [] (remove_from_room member lobby).1.1
unfolding close
close_again_example =
    close_again member (remove_from_room member lobby).1.0 lobby (remove_from_room member lobby).1.1
      (peers_of (remove_from_room member lobby).0)
      (run-new-IsBounded (joins (b'l' ∷ []) (b'n' ∷ []) ∷ [])) (inl refl)
