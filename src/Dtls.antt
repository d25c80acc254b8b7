-- ===== src/Dtls.antt =====
-- crates/wroom-edge/src/dtls.rs: `DtlsTransport` over an engine, `dimpl::Dtls`, which is a parameter. Of the
-- scratch buffer only the length is modelled: the engine writes it before it is read.
pub mod Draining
pub mod Examples
use wroom.Common.{ℕ, zero, suc, List, [], ◌∷◌, Option, none, some, Bool, true, false, if◌then◌else◌}
use wroom.Common.Bytes.{Bytes}
use wroom.Srtp.Errors.{SrtpProfile}

-- `dimpl::Output`; `unknown` stands for the variants that a later version may add.
pub data EngineOutput : Type 0 where
  buffer_too_small : ℕ → EngineOutput
  packet : Bytes → EngineOutput
  timeout : ℕ → EngineOutput
  connected : EngineOutput
  peer_cert : Bytes → EngineOutput
  keying_material : Bytes → SrtpProfile → EngineOutput
  application_data : Bytes → EngineOutput
  close_notify : EngineOutput
  unknown : EngineOutput

-- The calls of `dimpl::Dtls`, each with its error, if any, and the engine that it leaves; `poll` is given the length of the buffer.
pub record Engine (D F : Type 0) : Type 0 where
  pub set_active : Bool → D → D
  pub handle_packet : Bytes → D → Option F × D
  pub handle_timeout : ℕ → D → Option F × D
  pub send_application_data : Bytes → D → Option F × D
  pub close : D → Option F × D
  pub poll : ℕ → D → EngineOutput × D

pub data Output : Type 0 where
  packet : Bytes → Output
  timeout : ℕ → Output
  connected : Output
  peer_cert : Bytes → Output
  keying_material : Bytes → SrtpProfile → Output
  application_data : Bytes → Output
  closed : Output

-- `DtlsError`, without the failure to generate an identity.
pub data DtlsError (F : Type 0) : Type 0 where
  engine_error : F → DtlsError F
  already_failed : DtlsError F

pub record DtlsTransport (D : Type 0) : Type 0 where
  pub dtls : D
  pub buf_len : ℕ
  pub local_fingerprint : Bytes
  pub peer_certificate : Option Bytes
  pub keying : Option (Bytes × SrtpProfile)
  pub is_connected : Bool
  pub failed : Bool
  pub timeout_reported : Bool

abbrev pub output_buf_initial : ℕ
output_buf_initial = 2048

-- What polling the engine once gives: another poll, or an output.
pub data Polled (D : Type 0) : Type 0 where
  again : DtlsTransport D → Polled D
  output : Option Output → DtlsTransport D → Polled D

module _ {D : Type 0} where
  unfoldable pub from_inner : D → Bytes → DtlsTransport D
  from_inner d fingerprint = record {
    dtls = d;
    buf_len = output_buf_initial;
    local_fingerprint = fingerprint;
    peer_certificate = none;
    keying = none;
    is_connected = false;
    failed = false;
    timeout_reported = false;
  }

  -- One arm of the match of `poll_output`.
  unfoldable pub received : DtlsTransport D → EngineOutput → Polled D
  received t (buffer_too_small needed) = again (record t { buf_len = needed })
  received t (packet p) = output (some (packet p)) t
  received t (timeout at) = output (some (timeout at)) (record t { timeout_reported = true })
  received t connected = output (some connected) (record t { is_connected = true })
  received t (peer_cert der) =
      output (some (peer_cert der)) (record t { peer_certificate = some der })
  received t (keying_material material profile) =
      output (some (keying_material material profile))
        (record t { keying = some (material, profile) })
  received t (application_data bytes) = output (some (application_data bytes)) t
  received t close_notify = output (some closed) t
  received t unknown = again t

  abbrev pub seen :
      Output → Option (List Output × DtlsTransport D) → Option (List Output × DtlsTransport D)
  seen out none = none
  seen out (some (outs, u)) = some (out ∷ outs, u)

module _ {D F : Type 0} where
  unfoldable pub set_active : Engine D F → Bool → DtlsTransport D → DtlsTransport D
  set_active k active t = record t { timeout_reported = false; dtls = k.set_active active t.dtls }

  -- An error of the engine is latched.
  unfoldable pub settled : DtlsTransport D → Option F × D → Option (DtlsError F) × DtlsTransport D
  settled t (none, d) = (none, record t { dtls = d; timeout_reported = false })
  settled t (some e, d) =
      (some (engine_error e), record t { dtls = d; timeout_reported = false; failed = true })

  unfoldable pub unless_failed :
      DtlsTransport D → (D → Option F × D) → Option (DtlsError F) × DtlsTransport D
  unfolding settled
  unless_failed t call = if t.failed then (some already_failed, t) else settled t (call t.dtls)

  -- The timers first, and the datagram unless they fail.
  unfoldable pub refresh_then_feed : Engine D F → Bytes → ℕ → D → Option F × D
  refresh_then_feed k datagram now d =
      let (failure, refreshed) = k.handle_timeout now d in
      elim failure [ none ↦ k.handle_packet datagram refreshed | some e ↦ (some e, refreshed) ]

  unfoldable pub handle_packet :
      Engine D F → Bytes → ℕ → DtlsTransport D → Option (DtlsError F) × DtlsTransport D
  unfolding unless_failed refresh_then_feed
  handle_packet k datagram now t = unless_failed t (refresh_then_feed k datagram now)

  unfoldable pub handle_timeout :
      Engine D F → ℕ → DtlsTransport D → Option (DtlsError F) × DtlsTransport D
  unfolding unless_failed
  handle_timeout k now t = unless_failed t (k.handle_timeout now)

  unfoldable pub send_application_data :
      Engine D F → Bytes → DtlsTransport D → Option (DtlsError F) × DtlsTransport D
  unfolding unless_failed
  send_application_data k bytes t = unless_failed t (k.send_application_data bytes)

  unfoldable pub close : Engine D F → DtlsTransport D → Option (DtlsError F) × DtlsTransport D
  unfolding unless_failed
  close k t = unless_failed t k.close

  unfoldable pub poll_once : Engine D F → DtlsTransport D → Polled D
  unfolding received
  poll_once k t =
      if t.timeout_reported
      then output none t
      else let (out, d) = k.poll t.buf_len t.dtls in received (record t { dtls = d }) out

  -- `poll_output`, for at most so many polls of the engine; `none` where these do not do.
  unfoldable pub poll_output :
      Engine D F → ℕ → DtlsTransport D → Option (Option Output × DtlsTransport D)
  unfolding poll_once
  poll_output k zero t = none
  poll_output k (suc fuel) t = elim (poll_once k t) [
    | again u ↦ poll_output k fuel u
    | output o u ↦ some (o, u)
  ]

  -- The loop `while let Some(out) = self.dtls.poll_output()` of transport.rs: the outputs it sees, for at
  -- most so many rounds.
  unfoldable pub drain : Engine D F → ℕ → DtlsTransport D → Option (List Output × DtlsTransport D)
  unfolding poll_output
  drain k zero t = none
  drain k (suc fuel) t = elim (poll_output k (suc fuel) t) [
    | none ↦ none
    | some (none, u) ↦ some ([], u)
    | some (some out, u) ↦ seen out (drain k fuel u)
  ]
