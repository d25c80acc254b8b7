-- ===== src/Dtls/Examples.antt =====
-- Draining at a concrete engine: one that gives what a script says, and then a timeout.
use wroom.Common.{ℕ, ◌<◌, ◌≡◌, arith, false, List, [], ◌∷◌, none, length}
use wroom.Srtp.Errors.{aead_aes_128_gcm}
use wroom.Dtls.{
  EngineOutput, Engine, DtlsTransport, from_inner, buffer_too_small, packet, timeout, connected,
  peer_cert, keying_material, unknown,
}
use wroom.Dtls.Draining.{Cycles, is_last, resized, drain_ends}

abbrev script_poll : ℕ → List EngineOutput → EngineOutput × List EngineOutput
script_poll n [] = (timeout 50, [])
script_poll n (o ∷ script) = (o, script)

abbrev script_engine : Engine (List EngineOutput) ℕ
script_engine = record {
  set_active = λ active d. d;
  handle_packet = λ datagram d. (none, d);
  handle_timeout = λ now d. (none, d);
  send_application_data = λ bytes d. (none, d);
  close = λ d. (none, d);
  poll = script_poll;
}

abbrev script_left : ℕ → List EngineOutput → ℕ
script_left n script = length script

script_falls :
    (n : ℕ) (d : List EngineOutput)
    → is_last (script_poll n d).0 ≡ false
    → script_left (resized (script_poll n d).0 n) (script_poll n d).1 < script_left n d
script_falls n [] early = absurd (ground (arith, early))
script_falls n (o ∷ script) early = omega arith

abbrev handshake : DtlsTransport (List EngineOutput)
handshake =
    from_inner
      (packet (22 ∷ [])
        ∷ unknown
        ∷ buffer_too_small 4000
        ∷ peer_cert (48 ∷ [])
        ∷ keying_material (1 ∷ 2 ∷ []) aead_aes_128_gcm
        ∷ connected
        ∷ [])
      (65 ∷ [])

drain_ends_example : Cycles script_engine 8 handshake
unfolding from_inner
drain_ends_example = drain_ends script_engine script_left script_falls handshake
