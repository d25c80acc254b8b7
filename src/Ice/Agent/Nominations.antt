-- ===== src/Ice/Agent/Nominations.antt =====
-- Who may nominate: only an authenticated Binding request selects an address.
use wroom.Common.{
  ℕ, List, Option, none, some, Bool, true, false, ◌≡◌, refl, arith, ◌⊎◌, inl, inr, Option-cases,
  Bool-cases, length, take, subst, ◌∙◌, ltb, nat_beq,
}
use wroom.Common.Bytes.{Bytes}
use wroom.Common.Results.{Result, ok, err, Result-cases}
use wroom.Ice.Addresses.{SocketAddr}
use wroom.Ice.Stun.{
  Digests, StunError, Message, parse, method, class, Class, method_binding, attributes, get,
  text_of, use_candidate, ice_role, IceRole, verify_message_integrity, fingerprint_valid,
  is_stun_datagram, attr_username, attr_message_integrity,
}
use wroom.Ice.Building.{max_unknown_attrs}
use wroom.Ice.Agent.{
  IceLiteAgent, IceOutput, responded, reject, accept, on_authenticated, on_binding_request,
  on_message, handle_datagram, counted_response, username_valid, is_selected, on_binding_indication,
  touch, unknown_of, text_unknown_attribute, text_bad_request, text_role_conflict,
  text_unauthorized, silent,
}

-- The selected address is as before, and nothing is nominated.
abbrev pub Keeps : IceLiteAgent → IceOutput × IceLiteAgent → Type 0
Keeps a out = (out.1.selected ≡ a.selected) × (out.0.nominated ≡ none)

-- The remote address is selected and nominated, and was not selected before.
abbrev pub Nominates : IceLiteAgent → SocketAddr → IceOutput × IceLiteAgent → Type 0
Nominates a remote out =
    (out.1.selected ≡ some remote)
    × (out.0.nominated ≡ some remote)
    × (is_selected a.selected remote ≡ false)

responded-silent :
    (out : Bytes) (r : Result StunError (ℕ × Bytes)) → (responded out r).nominated ≡ none
responded-silent out (ok r) = refl
responded-silent out (err e) = refl

on_binding_indication-selected :
    (remote : SocketAddr) (now : ℕ) (a : IceLiteAgent)
    → (on_binding_indication remote now a).selected ≡ a.selected
unfolding on_binding_indication touch
on_binding_indication-selected remote now a = ground arith

Class-cases :
    (c : Class)
    → (c ≡ Class.request) ⊎ ((c ≡ Class.indication) ⊎ ((c ≡ Class.success) ⊎ (c ≡ Class.error)))
Class-cases Class.request = inl refl
Class-cases Class.indication = inr (inl refl)
Class-cases Class.success = inr (inr (inl refl))
Class-cases Class.error = inr (inr (inr refl))

counted_response-ids :
    (o : IceOutput) (a : IceLiteAgent)
    → ((counted_response (o, a)).1.selected ≡ a.selected)
      × ((counted_response (o, a)).0.nominated ≡ o.nominated)
unfolding counted_response
counted_response-ids o a = ground arith

-- The method and the class that the header of the message gives.
abbrev pub IsBindingRequest : Message → Type 0
IsBindingRequest m = (method m ≡ method_binding) × (class m ≡ Class.request)

module _ (digests : Digests) (m : Message) (remote : SocketAddr) (now : ℕ) (out : Bytes)
    (a : IceLiteAgent) where
  reject-Keeps :
      (tid : Bytes) (code : ℕ) (reason : Bytes) (unknown : Option (List ℕ)) (sign : Bool)
      → Keeps a (reject digests out tid code reason unknown sign a)
  unfolding reject
  reject-Keeps tid code reason unknown sign = (refl, responded-silent out _)

  accept-Nominates :
      Keeps a (accept digests m remote now out a)
      ⊎ ((use_candidate m ≡ true) × Nominates a remote (accept digests m remote now out a))
  unfolding accept touch
  accept-Nominates = elim (Bool-cases (use_candidate m)) [
    | inl wanted ↦ elim (Bool-cases (is_selected a.selected remote)) [
      | inl already ↦ rw (wanted, already) (inl (refl, responded-silent out _))
      | inr new ↦ rw (wanted, new) (inr (refl, (refl, refl, refl)))
    ]
    | inr plain ↦ rw plain (inl (refl, responded-silent out _))
  ]

  -- The request is one that the agent has authenticated.
  abbrev pub IsAuthentic : Type 0
  IsAuthentic =
      (username : Bytes) × (text_of m attr_username ≡ some username)
      × (username_valid a username ≡ true)
      × (verify_message_integrity digests m a.local_pwd ≡ true)

  on_authenticated-Nominates :
      Keeps a (on_authenticated digests m remote now out a)
      ⊎ ((use_candidate m ≡ true)
          × Nominates a remote (on_authenticated digests m remote now out a))
  unfolding on_authenticated
  on_authenticated-Nominates =
      let unknown = take max_unknown_attrs (unknown_of (attributes m)) in
      elim (Bool-cases (ltb 0 (length unknown))) [
        | inl some_unknown ↦
            rw some_unknown
              (inl (reject-Keeps m.transaction_id 420 text_unknown_attribute (some unknown) true))
        | inr known ↦ elim (Option-cases (ice_role m)) [
          | inl e ↦
              rw (known, e) (inl (reject-Keeps m.transaction_id 400 text_bad_request none true))
          | inr ((IceRole.controlled, n), e) ↦
              rw (known, e) (inl (reject-Keeps m.transaction_id 487 text_role_conflict none true))
          | inr ((IceRole.controlling, n), e) ↦ rw (known, e) accept-Nominates
        ]
      ]

  on_binding_request-Nominates :
      Keeps a (on_binding_request digests m remote now out a)
      ⊎ (IsAuthentic
          × ((use_candidate m ≡ true)
              × Nominates a remote (on_binding_request digests m remote now out a)))
  unfolding on_binding_request
  on_binding_request-Nominates =
      let o = on_binding_request digests m remote now out a in
      let unauthorized = reject digests out m.transaction_id 401 text_unauthorized none false a in
      let bad_request = reject digests out m.transaction_id 400 text_bad_request none false a in
      let authenticated = on_authenticated digests m remote now out a in
      let as_unauthorized = reject-Keeps m.transaction_id 401 text_unauthorized none false in
      let as_bad_request = reject-Keeps m.transaction_id 400 text_bad_request none false in
      elim (Option-cases (text_of m attr_username)) [
        | inl e ↦
            let same : bad_request ≡ o = ground (arith, e) in
            inl (subst (Keeps a) same as_bad_request)
        | inr (username, e) ↦ elim (Option-cases (get m attr_message_integrity)) [
          | inl q ↦
              let same : bad_request ≡ o = ground (arith, e, q) in
              inl (subst (Keeps a) same as_bad_request)
          | inr (tag, q) ↦ elim (Bool-cases (username_valid a username)) [
            | inr bad ↦
                let same : unauthorized ≡ o = ground (arith, e, q, bad) in
                inl (subst (Keeps a) same as_unauthorized)
            | inl valid ↦ elim (Bool-cases (verify_message_integrity digests m a.local_pwd)) [
              | inr bad ↦
                  let same : unauthorized ≡ o = ground (arith, e, q, valid, bad) in
                  inl (subst (Keeps a) same as_unauthorized)
              | inl good ↦
                  let same : authenticated ≡ o = ground (arith, e, q, valid, good) in
                  elim on_authenticated-Nominates [
                    | inl keeps ↦ inl (subst (Keeps a) same keeps)
                    | inr (wanted, nominates) ↦ inr (
                      (username, e, valid, good),
                      (wanted, subst (Nominates a remote) same nominates),
                    )
                  ]
            ]
          ]
        ]
      ]

  on_message-Nominates :
      Keeps a (on_message digests m remote now out a)
      ⊎ (IsBindingRequest m
          × (IsAuthentic
              × ((use_candidate m ≡ true)
                  × Nominates a remote (on_message digests m remote now out a))))
  unfolding on_message
  on_message-Nominates =
      let o = on_message digests m remote now out a in
      let requested = on_binding_request digests m remote now out a in
      elim (Bool-cases (nat_beq (method m) method_binding)) [
        | inr other ↦ inl (ground (arith, other))
        | inl binding ↦ elim (Class-cases (class m)) [
          | inl e ↦
              let same : requested ≡ o = ground (arith, binding, e) in
              elim on_binding_request-Nominates [
                | inl keeps ↦ inl (subst (Keeps a) same keeps)
                | inr (authentic, (wanted, nominates)) ↦ inr (
                  (ground (arith, binding), e),
                  (authentic, (wanted, subst (Nominates a remote) same nominates)),
                )
              ]
          | inr (inl e) ↦
              let after = on_binding_indication remote now a in
              let same : (silent out, after) ≡ o = ground (arith, binding, e) in
              inl (subst (Keeps a) same (on_binding_indication-selected remote now a, refl))
          | inr (inr (inl e)) ↦ inl (ground (arith, binding, e))
          | inr (inr (inr e)) ↦ inl (ground (arith, binding, e))
        ]
      ]

-- A datagram leaves the selected address as it is and nominates nothing, or it is a STUN message with a
-- valid fingerprint, of the method Binding and the class request, that carries USE-CANDIDATE and is
-- authenticated with the user name and the password of the agent; then the agent selects and nominates the
-- address that it came from, which was not selected.
pub handle_datagram-Nominates :
    (digests : Digests) (datagram : Bytes) (remote : SocketAddr) (now : ℕ) (out : Bytes)
    (a : IceLiteAgent)
    → Keeps a (handle_datagram digests datagram remote now out a)
      ⊎ ((m : Message) × (parse datagram ≡ ok m)
          × (fingerprint_valid digests m ≡ true)
          × IsBindingRequest m
          × IsAuthentic digests m remote now out a
          × (use_candidate m ≡ true)
          × Nominates a remote (handle_datagram digests datagram remote now out a))
unfolding handle_datagram
handle_datagram-Nominates digests datagram remote now out a =
    let o = handle_datagram digests datagram remote now out a in
    elim (Bool-cases (is_stun_datagram datagram)) [
      | inr other ↦ inl (ground (arith, other))
      | inl stun ↦ elim (Result-cases (parse datagram)) [
        | inl (e, bad) ↦ inl (ground (arith, stun, bad))
        | inr (m, parsed) ↦ elim (Bool-cases (fingerprint_valid digests m)) [
          | inr bad ↦ inl (ground (arith, stun, parsed, bad))
          | inl valid ↦
              let r = on_message digests m remote now out a in
              let ids = counted_response-ids r.0 r.1 in
              let same : counted_response r ≡ o = ground (arith, stun, parsed, valid) in
              elim (on_message-Nominates digests m remote now out a) [
                | inl keeps ↦ inl (subst (Keeps a) same (ids.0 ∙ keeps.0, ids.1 ∙ keeps.1))
                | inr (request, (authentic, (wanted, n))) ↦ inr (
                  m,
                  parsed,
                  valid,
                  request,
                  authentic,
                  wanted,
                  subst (Nominates a remote) same (ids.0 ∙ n.0, ids.1 ∙ n.1, n.2),
                )
              ]
        ]
      ]
    ]
