-- ===== src/Session/Ownership.antt =====
-- What a session does to the registry is a run of the registry's own calls, all of them on behalf of its
-- participant.
use wroom.Common.{
  List, [], ◌∷◌, ◌++◌, Option, none, some, true, false, ◌≡◌, refl, sym, arith, inl, inr,
  Option-cases, Bool-cases, All, if◌then◌else◌, ◌-◌, ◌||◌, leb, ltb, length, subst,
}
use wroom.Registry.Types.{Str, Registry, TrackRef}
use wroom.Registry.{publish, unpublish, update_subscriptions, join, leave, room, participant}
use wroom.Registry.Calls.{Call, joins, leaves, publishes, unpublishes, updates, mutes, run, step}
use wroom.Session.Messages.{
  ClientMessage, Track, RoomDelta, core_track_meta, Detail, UpdateSubscriptions, UpdateLocalTracks,
  core_subscriptions, no_delta, Output, to_self, to_peers, subscription_update, room_delta,
  room_delta_is_empty, empty_message, already_joined, invalid_token, first_must_be_join,
}
use wroom.Session.Machine.{
  Session, awaiting_join, Outcome, returned, aborted, Env, Clocks, reject, Claims, max_chat_bytes,
}
use wroom.Session.Machine.Handlers.{
  publish_all, unpublish_all, published_delta, handle, on_leave, remove_from_room, on_room_message,
  on_first_message, on_join, enter_room, on_send_chat, on_update_subscriptions,
  on_update_local_tracks, parked_offer, refused_revision,
}
use wroom.Session.Soundness.{Result-cases, State-cases}

-- The room and the participant are those of the session.
abbrev Names : {T : Type 0} → Session T → Str → Str → Type 0
Names s rid pid = (s.room_id ≡ some rid) × (s.participant_id ≡ some pid)

-- A call that the session may make: to join before it has, and to act on its own participant.
abbrev pub IsOwn : {T : Type 0} → Session T → Call → Type 0
IsOwn s (joins rid name) = s.state ≡ awaiting_join
IsOwn s (leaves rid pid) = Names s rid pid
IsOwn s (publishes rid pid track_id meta) = Names s rid pid
IsOwn s (unpublishes rid pid track_id) = Names s rid pid
IsOwn s (updates rid pid upsert removed revision) = Names s rid pid
IsOwn s (mutes rid pid track_id muted) = true ≡ false

-- The second registry comes from the first by calls of the session.
abbrev pub ByOwn : {T : Type 0} → Session T → Registry → Registry → Type 0
ByOwn s reg reg' = (calls : List Call) × (reg' ≡ run reg calls) × All (IsOwn s) calls

abbrev pub EndsByOwn : {T : Type 0} → Session T → Registry → Outcome T → Type 0
EndsByOwn s reg (returned s' out reg') = ByOwn s reg reg'
EndsByOwn s reg aborted = Unit

module _ {T : Type 0} (s : Session T) where
  none-ByOwn : (reg : Registry) → ByOwn s reg reg
  unfolding run
  none-ByOwn reg = ([], refl, tt)

  one-ByOwn : (reg : Registry) (c : Call) → IsOwn s c → ByOwn s reg (step reg c)
  unfolding run
  one-ByOwn reg c own = (c ∷ [], refl, (own, tt))

  then-ByOwn :
      (reg : Registry) (c : Call) (reg' : Registry)
      → IsOwn s c
      → ByOwn s (step reg c) reg'
      → ByOwn s reg reg'
  unfolding run
  then-ByOwn reg c reg' own (cs, same, owns) = (c ∷ cs, same, (own, owns))

  both-ByOwn :
      (cs : List Call) (reg reg' : Registry)
      → All (IsOwn s) cs
      → ByOwn s (run reg cs) reg'
      → ByOwn s reg reg'
  unfolding run
  both-ByOwn [] reg reg' owns later = later
  both-ByOwn (c ∷ cs) reg reg' (own, owns) later =
      then-ByOwn reg c reg' own (both-ByOwn cs (step reg c) reg' owns later)

  join-ByOwn : (a b c : Registry) → ByOwn s a b → ByOwn s b c → ByOwn s a c
  join-ByOwn a b c (cs, same, owns) later = both-ByOwn cs a c owns (rw (← same) later)

module _ {T : Type 0} (s : Session T) (rid pid : Str) (names : Names s rid pid) where
  publish_all-ByOwn :
      (ts : List Track) (delta : RoomDelta) (reg : Registry) (out : RoomDelta × Registry)
      → publish_all rid pid ts delta reg ≡ some out
      → ByOwn s reg out.1
  unfolding publish_all step
  publish_all-ByOwn [] delta reg out h =
      let same : reg ≡ out.1 = ground (arith, h) in rw (← same) (none-ByOwn s reg)
  publish_all-ByOwn (t ∷ ts) delta reg out h =
      let meta = core_track_meta t in
      let result = publish reg rid pid t.id meta in
      let call = publishes rid pid t.id meta in
      elim (Result-cases result.0) [
        | inl (outcome, e) ↦
            let h' : publish_all rid pid ts (published_delta pid t outcome delta) result.1
                ≡ some out =
              ground (arith, e, h) in
            then-ByOwn s reg call out.1 names
              (publish_all-ByOwn ts (published_delta pid t outcome delta) result.1 out h')
        | inr (inl (x, e)) ↦
            let h' : publish_all rid pid ts delta result.1 ≡ some out = ground (arith, e, h) in
            then-ByOwn s reg call out.1 names (publish_all-ByOwn ts delta result.1 out h')
        | inr (inr e) ↦ absurd (ground (arith, e, h))
      ]

  unpublish_all-ByOwn :
      (ids : List Str) (delta : RoomDelta) (reg : Registry) (out : RoomDelta × Registry)
      → unpublish_all rid pid ids delta reg ≡ some out
      → ByOwn s reg out.1
  unfolding unpublish_all step
  unpublish_all-ByOwn [] delta reg out h =
      let same : reg ≡ out.1 = ground (arith, h) in rw (← same) (none-ByOwn s reg)
  unpublish_all-ByOwn (id ∷ ids) delta reg out h =
      let result = unpublish reg rid pid id in
      let call = unpublishes rid pid id in
      let gone : TrackRef = record { participant_id = pid; track_id = id } in
      let delta' = record delta { unpublished = delta.unpublished ++ gone ∷ [] } in
      elim (Result-cases result.0) [
        | inl (removed, e) ↦
            let next = if removed then delta' else delta in
            let h' : unpublish_all rid pid ids next result.1 ≡ some out = ground (arith, e, h) in
            then-ByOwn s reg call out.1 names (unpublish_all-ByOwn ids next result.1 out h')
        | inr (inl (x, e)) ↦
            let h' : unpublish_all rid pid ids delta result.1 ≡ some out = ground (arith, e, h) in
            then-ByOwn s reg call out.1 names (unpublish_all-ByOwn ids delta result.1 out h')
        | inr (inr e) ↦ absurd (ground (arith, e, h))
      ]

module _ {T : Type 0} (s : Session T) (reg : Registry) where
  reject-EndsByOwn : (d : Detail) → EndsByOwn s reg (reject d s reg)
  unfolding reject
  reject-EndsByOwn d = none-ByOwn s reg

  -- The registry that leaving gives, and that nothing else is done to it.
  remove_from_room-ByOwn : ByOwn s reg (remove_from_room s reg).1.1
  unfolding remove_from_room step
  remove_from_room-ByOwn = elim (Option-cases s.room_id) [
    | inl e ↦ subst (ByOwn s reg) (ground (arith, e)) (none-ByOwn s reg)
    | inr (rid, e) ↦ elim (Option-cases s.participant_id) [
      | inl e' ↦ subst (ByOwn s reg) (ground (arith, e, e')) (none-ByOwn s reg)
      | inr (pid, e') ↦
          let left : (leave reg rid pid).1 ≡ (remove_from_room s reg).1.1 = ground (arith, e, e') in
          subst (ByOwn s reg) left (one-ByOwn s reg (leaves rid pid) (e, e'))
    ]
  ]

  by_abort : (o : Outcome T) → o ≡ aborted → EndsByOwn s reg o
  by_abort o e = subst (EndsByOwn s reg) (sym e) tt

  by_return :
      (o : Outcome T) (s' : Session T) (out : List Output) (reg' : Registry)
      → o ≡ returned s' out reg'
      → ByOwn s reg reg'
      → EndsByOwn s reg o
  by_return o s' out reg' e own = subst (EndsByOwn s reg) (sym e) own

  on_update_subscriptions-EndsByOwn :
      (us : UpdateSubscriptions) → EndsByOwn s reg (on_update_subscriptions us s reg)
  unfolding on_update_subscriptions step
  on_update_subscriptions-EndsByOwn us =
      let o = on_update_subscriptions us s reg in
      elim (Option-cases s.room_id) [
        | inl e ↦ by_abort o (ground (arith, e))
        | inr (rid, e) ↦ elim (Option-cases s.participant_id) [
          | inl e' ↦ by_abort o (ground (arith, e, e'))
          | inr (pid, e') ↦
              let upsert = core_subscriptions us.upsert in
              let result = update_subscriptions reg rid pid upsert us.removed us.revision in
              let own = one-ByOwn s reg (updates rid pid upsert us.removed us.revision) (e, e') in
              elim (Result-cases result.0) [
                | inl (n, q) ↦
                    by_return o s (to_self (subscription_update n) ∷ []) result.1
                      (ground (arith, e, e', q)) own
                | inr (inl (x, q)) ↦
                    by_return o s
                      (to_self (subscription_update (refused_revision result.1 rid pid x)) ∷ [])
                      result.1 (ground (arith, e, e', q)) own
                | inr (inr q) ↦ by_abort o (ground (arith, e, e', q))
              ]
        ]
      ]

  on_update_local_tracks-EndsByOwn :
      (ult : UpdateLocalTracks) → EndsByOwn s reg (on_update_local_tracks ult s reg)
  unfolding on_update_local_tracks
  on_update_local_tracks-EndsByOwn ult =
      let o = on_update_local_tracks ult s reg in
      elim (Option-cases s.room_id) [
        | inl e ↦ by_abort o (ground (arith, e))
        | inr (rid, e) ↦ elim (Option-cases s.participant_id) [
          | inl e' ↦ by_abort o (ground (arith, e, e'))
          | inr (pid, e') ↦ elim (Option-cases (publish_all rid pid ult.publish no_delta reg)) [
            | inl q ↦ by_abort o (ground (arith, e, e', q))
            | inr (mid, q) ↦ elim (Option-cases (unpublish_all rid pid ult.unpublish mid.0 mid.1)) [
              | inl r ↦ by_abort o (ground (arith, e, e', q, r))
              | inr (done, r) ↦
                  by_return o s
                    (if room_delta_is_empty done.0 then [] else to_peers (room_delta done.0) ∷ [])
                    done.1 (ground (arith, e, e', q, r))
                    (join-ByOwn s reg mid.1 done.1
                      (publish_all-ByOwn s rid pid (e, e') ult.publish no_delta reg mid q)
                      (unpublish_all-ByOwn s rid pid (e, e') ult.unpublish mid.0 mid.1 done r))
            ]
          ]
        ]
      ]

module _ (env : Env) (s : Session env.Tokens) (reg : Registry) where
  on_send_chat-EndsByOwn :
      (clocks : Clocks) (text : Str) → EndsByOwn s reg (on_send_chat env clocks text s reg)
  unfolding on_send_chat run
  on_send_chat-EndsByOwn clocks text =
      let tokens = env.refill s.chat_tokens (clocks.now - s.chat_refill) in
      elim (Bool-cases (leb (length text) 0 || ltb max_chat_bytes (length text))) [
        | inl bad ↦ rw (bad, on_send_chat) (none-ByOwn s reg)
        | inr good ↦ elim (Bool-cases (env.affords_one tokens)) [
          | inr poor ↦ rw (good, poor, on_send_chat) (none-ByOwn s reg)
          | inl rich ↦ elim (Option-cases s.participant_id) [
            | inl e ↦
                by_abort s reg (on_send_chat env clocks text s reg) (ground (arith, good, rich, e))
            | inr (pid, e) ↦ rw (good, rich, e, on_send_chat) ([], refl, tt)
          ]
        ]
      ]

  enter_room-EndsByOwn :
      (claims : Claims) (s' : Session env.Tokens)
      → s.state ≡ awaiting_join
      → EndsByOwn s reg (enter_room env claims s' reg)
  unfolding enter_room step reject
  enter_room-EndsByOwn claims s' first =
      let result = join reg claims.room_id claims.display_name in
      let own = one-ByOwn s reg (joins claims.room_id claims.display_name) first in
      elim (Result-cases result.0) [
        | inl (pid, e) ↦ elim (Option-cases (room result.1 claims.room_id)) [
          | inl q ↦ rw (e, q, enter_room) tt
          | inr (r, q) ↦ elim (Option-cases (participant r pid)) [
            | inl m ↦ rw (e, q, m, enter_room) tt
            | inr (me, m) ↦ rw (e, q, m, enter_room) own
          ]
        ]
        | inr (inl (x, e)) ↦ rw (e, enter_room) own
        | inr (inr e) ↦ rw (e, enter_room) tt
      ]

  on_room_message-EndsByOwn :
      (clocks : Clocks) (msg : Option ClientMessage)
      → EndsByOwn s reg (on_room_message env clocks msg s reg)
  unfolding on_room_message on_leave
  on_room_message-EndsByOwn clocks none = none-ByOwn s reg
  on_room_message-EndsByOwn clocks (some (ClientMessage.join req)) =
      reject-EndsByOwn s reg already_joined
  on_room_message-EndsByOwn clocks (some (ClientMessage.session_description sd)) = none-ByOwn s reg
  on_room_message-EndsByOwn clocks (some (ClientMessage.ice_candidates ic)) = none-ByOwn s reg
  on_room_message-EndsByOwn clocks (some (ClientMessage.update_subscriptions us)) =
      on_update_subscriptions-EndsByOwn s reg us
  on_room_message-EndsByOwn clocks (some (ClientMessage.update_local_tracks ult)) =
      on_update_local_tracks-EndsByOwn s reg ult
  on_room_message-EndsByOwn clocks (some (ClientMessage.send_chat text)) =
      on_send_chat-EndsByOwn clocks text
  on_room_message-EndsByOwn clocks (some ClientMessage.pong) = none-ByOwn s reg
  on_room_message-EndsByOwn clocks (some ClientMessage.leave) = remove_from_room-ByOwn s reg

  on_first_message-EndsByOwn :
      (msg : Option ClientMessage)
      → s.state ≡ awaiting_join
      → EndsByOwn s reg (on_first_message env msg s reg)
  unfolding on_first_message on_join
  on_first_message-EndsByOwn none first = reject-EndsByOwn s reg empty_message
  on_first_message-EndsByOwn (some (ClientMessage.join req)) first =
      elim (Option-cases (env.verify req.token)) [
        | inl e ↦ rw (e, on_join) (reject-EndsByOwn s reg invalid_token)
        | inr (claims, e) ↦
            rw (e, on_join)
              (enter_room-EndsByOwn claims (parked_offer env req.publisher_offer s) first)
      ]
  on_first_message-EndsByOwn (some m) first = reject-EndsByOwn s reg first_must_be_join

  -- Where a message is handled without a panic, the registry is as after a run of its own calls: a join for
  -- a session that has not joined yet, and otherwise only calls on the session's participant in its room,
  -- none of which is `set_muted`.
  pub handle-EndsByOwn :
      (clocks : Clocks) (msg : Option ClientMessage) → EndsByOwn s reg (handle env clocks msg s reg)
  unfolding handle
  handle-EndsByOwn clocks msg = elim (State-cases s.state) [
    | inl e ↦
        let first : on_first_message env msg s reg ≡ handle env clocks msg s reg =
          ground (arith, e) in
        subst (EndsByOwn s reg) first (on_first_message-EndsByOwn msg e)
    | inr (inl e) ↦
        let later : on_room_message env clocks msg s reg ≡ handle env clocks msg s reg =
          ground (arith, e) in
        subst (EndsByOwn s reg) later (on_room_message-EndsByOwn clocks msg)
    | inr (inr e) ↦
        by_return s reg (handle env clocks msg s reg) s [] reg (ground (arith, e))
          (none-ByOwn s reg)
  ]
