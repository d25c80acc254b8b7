-- ===== src/Session/Machine/Handlers.antt =====
-- The handlers of `Session` in crates/wroom-signaling/src/session.rs, from joining to leaving.
use wroom.Common.{
  ℕ, ◌+◌, ◌-◌, ◌%◌, ◌^◌, List, [], ◌∷◌, ◌++◌, Option, none, some, true, ◌||◌, ltb, leb,
  if◌then◌else◌, length,
}
use wroom.Common.Decimal.{decimal}
use wroom.Registry.Types.{
  Str, Registry, RegistryError, ok, err, panicked, stale_revision, TrackRef, PublishOutcome,
}
use wroom.Registry
use wroom.Registry.{room, participant}
use wroom.Registry.Freshness.{find}
use wroom.Session.Messages
use wroom.Session.Messages.{
  SessionDescription, IceCandidates, JoinRequest, Track, UpdateSubscriptions, UpdateLocalTracks,
  ClientMessage, RoomDelta, no_delta, Detail, first_must_be_join, empty_message, invalid_token,
  already_joined, bye, join_rejected, ServerMessage, join_response, room_delta, subscription_update,
  chat, disconnect, Output, to_self, to_peers, client_left, publisher, subscriber, SignalTarget,
  room_delta_is_empty, core_track_meta, core_subscriptions, proto_participant, proto_room,
}
use wroom.Session.Machine.{
  max_chat_bytes, awaiting_join, joined, closed, Claims, Env, Session, empty_park, clean, Outcome,
  returned, aborted, Clocks, park_sdp, park_candidates, reject, left_delta,
}

unfoldable pub remove_from_room :
    {T : Type 0} → Session T → Registry → Option ServerMessage × (Session T × Registry)
remove_from_room s reg =
    let ended = record s { state = closed } in
    elim s.room_id [
      | none ↦ (none, (ended, reg))
      | some room_id ↦ elim s.participant_id [
        | none ↦ (none, (ended, reg))
        | some pid ↦
            let (removed, reg') = Registry.leave reg room_id pid in
            (if removed then some (left_delta pid) else none, (ended, reg'))
      ]
    ]

abbrev pub peers_of : Option ServerMessage → List Output
peers_of none = []
peers_of (some delta) = to_peers delta ∷ []

-- `Session::close`.
unfoldable pub close : {T : Type 0} → Session T → Registry → Outcome T
unfolding remove_from_room
close s reg =
    let (delta, ended) = remove_from_room s reg in returned ended.0 (peers_of delta) ended.1

unfoldable pub on_leave : {T : Type 0} → Session T → Registry → Outcome T
unfolding remove_from_room
on_leave s reg =
    let (delta, ended) = remove_from_room s reg in
    returned ended.0 (to_self (disconnect client_left bye) ∷ (peers_of delta ++ Output.close ∷ []))
      ended.1

unfoldable pub last_applied_revision : Registry → Str → Str → ℕ
unfolding find
last_applied_revision reg room_id pid = elim (find reg room_id pid) [
  | none ↦ 0
  | some p ↦ elim p.applied_subscription_revision [ none ↦ 0 | some r ↦ r ]
]

-- The revision that is echoed after an error.
unfoldable pub refused_revision : Registry → Str → Str → RegistryError → ℕ
unfolding last_applied_revision
refused_revision reg room_id pid (stale_revision applied) = applied
refused_revision reg room_id pid e = last_applied_revision reg room_id pid

unfoldable pub on_update_subscriptions :
    {T : Type 0} → UpdateSubscriptions → Session T → Registry → Outcome T
unfolding refused_revision core_subscriptions
on_update_subscriptions us s reg = elim s.room_id [
  | none ↦ aborted
  | some room_id ↦ elim s.participant_id [
    | none ↦ aborted
    | some pid ↦
        let (result, reg') =
          Registry.update_subscriptions reg room_id pid (core_subscriptions us.upsert) us.removed
            us.revision in
        elim result [
          | ok revision ↦ returned s (to_self (subscription_update revision) ∷ []) reg'
          | panicked ↦ aborted
          | err e ↦
              returned s (to_self (subscription_update (refused_revision reg' room_id pid e)) ∷ [])
                reg'
        ]
  ]
]

-- What a published track adds to the delta.
unfoldable pub published_delta : Str → Track → PublishOutcome → RoomDelta → RoomDelta
published_delta pid t outcome delta =
    let new : Messages.TrackPublished = record { participant_id = pid; track = t } in
    let ref : TrackRef = record { participant_id = pid; track_id = t.id } in
    if outcome.is_new
    then record delta { published = delta.published ++ new ∷ [] }
    else elim outcome.mute_change [
      | none ↦ delta
      | some muted ↦ record delta {
        mute_changes = delta.mute_changes ++ record { track = ref; muted = muted } ∷ [];
      }
    ]

-- The loop over the tracks to publish: the delta that it has collected and the registry; `None` is a panic.
unfoldable pub publish_all :
    Str → Str → List Track → RoomDelta → Registry → Option (RoomDelta × Registry)
unfolding core_track_meta published_delta
publish_all room_id pid [] delta reg = some (delta, reg)
publish_all room_id pid (t ∷ ts) delta reg =
    let (result, reg') = Registry.publish reg room_id pid t.id (core_track_meta t) in
    elim result [
      | err e ↦ publish_all room_id pid ts delta reg'
      | panicked ↦ none
      | ok outcome ↦ publish_all room_id pid ts (published_delta pid t outcome delta) reg'
    ]

unfoldable pub unpublish_all :
    Str → Str → List Str → RoomDelta → Registry → Option (RoomDelta × Registry)
unpublish_all room_id pid [] delta reg = some (delta, reg)
unpublish_all room_id pid (id ∷ ids) delta reg =
    let (result, reg') = Registry.unpublish reg room_id pid id in
    let gone : TrackRef = record { participant_id = pid; track_id = id } in
    let delta' = record delta { unpublished = delta.unpublished ++ gone ∷ [] } in
    elim result [
      | ok removed ↦ unpublish_all room_id pid ids (if removed then delta' else delta) reg'
      | err e ↦ unpublish_all room_id pid ids delta reg'
      | panicked ↦ none
    ]

unfoldable pub on_update_local_tracks :
    {T : Type 0} → UpdateLocalTracks → Session T → Registry → Outcome T
unfolding publish_all unpublish_all room_delta_is_empty
on_update_local_tracks ult s reg = elim s.room_id [
  | none ↦ aborted
  | some room_id ↦ elim s.participant_id [
    | none ↦ aborted
    | some pid ↦ elim (publish_all room_id pid ult.publish no_delta reg) [
      | none ↦ aborted
      | some published ↦ elim (unpublish_all room_id pid ult.unpublish published.0 published.1) [
        | none ↦ aborted
        | some done ↦
            returned s
              (if room_delta_is_empty done.0 then [] else to_peers (room_delta done.0) ∷ []) done.1
      ]
    ]
  ]
]

module _ (env : Env) where
  unfoldable pub session_new : ℕ → Session env.Tokens
  session_new now = record {
    state = awaiting_join;
    participant_id = none;
    room_id = none;
    display_name = none;
    transport = empty_park;
    transport_dirty = clean;
    chat_seq = 0;
    chat_tokens = env.burst;
    chat_refill = now;
  }

  unfoldable pub on_send_chat : Clocks → Str → Session env.Tokens → Registry → Outcome env.Tokens
  on_send_chat clocks text s reg =
      let tokens = env.refill s.chat_tokens (clocks.now - s.chat_refill) in
      let refilled = record s { chat_tokens = tokens; chat_refill = clocks.now } in
      let seq = (s.chat_seq + 1) % 2 ^ 64 in
      let spent = record refilled { chat_tokens = env.spend_one tokens; chat_seq = seq } in
      if leb (length text) 0 || ltb max_chat_bytes (length text)
      then returned s [] reg
      else if env.affords_one tokens
      then elim s.participant_id [
        | none ↦ aborted
        | some pid ↦
            let message = chat (record {
              id = pid ++ b'-' ∷ decimal seq;
              participant_id = pid;
              display_name = elim s.display_name [ none ↦ [] | some name ↦ name ];
              text = text;
              sent_at_ms = clocks.wall;
            }) in
            returned spent (to_peers message ∷ to_self message ∷ []) reg
      ]
      else returned refilled [] reg

  -- What `on_join` does once the claims are verified and the offer is parked.
  unfoldable pub enter_room : Claims → Session env.Tokens → Registry → Outcome env.Tokens
  unfolding reject proto_participant proto_room participant
  enter_room claims s reg =
      let (result, reg') = Registry.join reg claims.room_id claims.display_name in
      elim result [
        | err e ↦ reject (join_rejected e) s reg'
        | panicked ↦ aborted
        | ok pid ↦ elim (room reg' claims.room_id) [
          | none ↦ aborted
          | some r ↦ elim (participant r pid) [
            | none ↦ aborted
            | some me ↦
                returned
                  (record s {
                    participant_id = some pid;
                    room_id = some claims.room_id;
                    display_name = some claims.display_name;
                    state = joined;
                  })
                  (to_self (join_response pid (proto_room r))
                    ∷ to_peers (room_delta (record no_delta { joined = proto_participant me ∷ [] }))
                    ∷ [])
                  reg'
          ]
        ]
      ]

  unfoldable pub parked_offer : Option SessionDescription → Session env.Tokens → Session env.Tokens
  parked_offer none s = s
  parked_offer (some offer) s = record s {
    transport = record s.transport { publisher_sdp = some offer };
    transport_dirty = record s.transport_dirty { publisher_sdp = true };
  }

  unfoldable pub on_join : JoinRequest → Session env.Tokens → Registry → Outcome env.Tokens
  unfolding reject enter_room parked_offer
  on_join req s reg = elim (env.verify req.token) [
    | none ↦ reject invalid_token s reg
    | some claims ↦ enter_room claims (parked_offer req.publisher_offer s) reg
  ]

  unfoldable pub on_room_message :
      Clocks → Option ClientMessage → Session env.Tokens → Registry → Outcome env.Tokens
  unfolding reject park_sdp park_candidates on_update_subscriptions on_update_local_tracks
      on_send_chat on_leave
  on_room_message clocks none s reg = returned s [] reg
  on_room_message clocks (some (ClientMessage.join req)) s reg = reject already_joined s reg
  on_room_message clocks (some (ClientMessage.session_description sd)) s reg =
      returned (park_sdp sd s) [] reg
  on_room_message clocks (some (ClientMessage.ice_candidates ic)) s reg =
      returned (park_candidates ic s) [] reg
  on_room_message clocks (some (ClientMessage.update_subscriptions us)) s reg =
      on_update_subscriptions us s reg
  on_room_message clocks (some (ClientMessage.update_local_tracks ult)) s reg =
      on_update_local_tracks ult s reg
  on_room_message clocks (some (ClientMessage.send_chat text)) s reg =
      on_send_chat clocks text s reg
  on_room_message clocks (some ClientMessage.pong) s reg = returned s [] reg
  on_room_message clocks (some ClientMessage.leave) s reg = on_leave s reg

  -- The first message of a session.
  unfoldable pub on_first_message :
      Option ClientMessage → Session env.Tokens → Registry → Outcome env.Tokens
  unfolding reject on_join
  on_first_message none s reg = reject empty_message s reg
  on_first_message (some (ClientMessage.join req)) s reg = on_join req s reg
  on_first_message (some m) s reg = reject first_must_be_join s reg

  -- `Session::handle`.
  unfoldable pub handle :
      Clocks → Option ClientMessage → Session env.Tokens → Registry → Outcome env.Tokens
  unfolding on_first_message on_room_message
  handle clocks msg s reg = elim s.state [
    | awaiting_join ↦ on_first_message msg s reg
    | joined ↦ on_room_message clocks msg s reg
    | closed ↦ returned s [] reg
  ]
