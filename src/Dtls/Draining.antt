-- ===== src/Dtls/Draining.antt =====
-- Draining a transport: the loop ends, and what the transport keeps is what the outputs said.
use wroom.Common.{
  ℕ, zero, suc, ◌≤◌, ◌<◌, ◌≡◌, refl, ap, arith, Bool, true, false, ◌||◌, List, [], ◌∷◌, Option,
  none, some, inl, inr, ◌⊎◌, Bool-cases, ◌∙◌,
}
use wroom.Common.Bytes.{Bytes}
use wroom.Srtp.Errors.{SrtpProfile}
use wroom.Dtls.{
  EngineOutput, Engine, Output, DtlsTransport, received, poll_once, poll_output, drain, seen,
  buffer_too_small, packet, timeout, connected, peer_cert, keying_material, application_data,
  close_notify, unknown, closed, again, output,
}

-- What a transport keeps of the outputs that it gives.
pub record Latch : Type 0 where
  pub certificate : Option Bytes
  pub keys : Option (Bytes × SrtpProfile)
  pub up : Bool
  pub broken : Bool

abbrev pub view : {D : Type 0} → DtlsTransport D → Latch
view t = record {
  certificate = t.peer_certificate;
  keys = t.keying;
  up = t.is_connected;
  broken = t.failed;
}

abbrev pub latch : Output → Latch → Latch
latch connected l = record l { up = true }
latch (peer_cert der) l = record l { certificate = some der }
latch (keying_material material profile) l = record l { keys = some (material, profile) }
latch (packet p) l = l
latch (timeout at) l = l
latch (application_data bytes) l = l
latch closed l = l

abbrev pub latch_all : List Output → Latch → Latch
latch_all [] l = l
latch_all (o ∷ outs) l = latch_all outs (latch o l)

abbrev pub is_timeout : Output → Bool
is_timeout (timeout at) = true
is_timeout (packet p) = false
is_timeout connected = false
is_timeout (peer_cert der) = false
is_timeout (keying_material material profile) = false
is_timeout (application_data bytes) = false
is_timeout closed = false

-- One timeout, and it is the last output.
abbrev pub ends_in_timeout : List Output → Bool
ends_in_timeout [] = false
ends_in_timeout (timeout at ∷ []) = true
ends_in_timeout (timeout at ∷ (o ∷ outs)) = false
ends_in_timeout (packet p ∷ outs) = ends_in_timeout outs
ends_in_timeout (connected ∷ outs) = ends_in_timeout outs
ends_in_timeout (peer_cert der ∷ outs) = ends_in_timeout outs
ends_in_timeout (keying_material material profile ∷ outs) = ends_in_timeout outs
ends_in_timeout (application_data bytes ∷ outs) = ends_in_timeout outs
ends_in_timeout (closed ∷ outs) = ends_in_timeout outs

-- The outputs of a drain, given whether the timeout of the cycle had been reported before: then none.
abbrev pub ends_cycle : Bool → List Output → Bool
ends_cycle false outs = ends_in_timeout outs
ends_cycle true [] = true
ends_cycle true (o ∷ outs) = false

abbrev pub is_last : EngineOutput → Bool
is_last (timeout at) = true
is_last (buffer_too_small needed) = false
is_last (packet p) = false
is_last connected = false
is_last (peer_cert der) = false
is_last (keying_material material profile) = false
is_last (application_data bytes) = false
is_last close_notify = false
is_last unknown = false

-- The length of the buffer after an output of the engine.
abbrev pub resized : EngineOutput → ℕ → ℕ
resized (buffer_too_small needed) n = needed
resized (timeout at) n = n
resized (packet p) n = n
resized connected n = n
resized (peer_cert der) n = n
resized (keying_material material profile) n = n
resized (application_data bytes) n = n
resized close_notify n = n
resized unknown n = n

module _ {D : Type 0} where
  -- One arm: a retry that keeps nothing, or an output with what is kept of it.
  abbrev Retries : DtlsTransport D → EngineOutput → DtlsTransport D → Type 0
  Retries t o u =
      (received t o ≡ again u)
      × (view u ≡ view t)
      × (u.timeout_reported ≡ t.timeout_reported)
      × (u.dtls ≡ t.dtls)
      × (u.buf_len ≡ resized o t.buf_len)
      × (is_last o ≡ false)

  abbrev Gives : DtlsTransport D → EngineOutput → Output → DtlsTransport D → Type 0
  Gives t o p u =
      (received t o ≡ output (some p) u)
      × (view u ≡ latch p (view t))
      × (u.timeout_reported ≡ (is_timeout p || t.timeout_reported))
      × (u.dtls ≡ t.dtls)
      × (u.buf_len ≡ resized o t.buf_len)
      × (is_last o ≡ is_timeout p)

  received-cases :
      (t : DtlsTransport D) (o : EngineOutput)
      → ((u : DtlsTransport D) × Retries t o u)
        ⊎ ((p : Output) × ((u : DtlsTransport D) × Gives t o p u))
  unfolding received
  received-cases t (buffer_too_small needed) =
      inl (record t { buf_len = needed }, (refl, refl, refl, refl, refl, refl))
  received-cases t unknown = inl (t, (refl, refl, refl, refl, refl, refl))
  received-cases t (packet p) = inr (packet p, (t, (refl, refl, refl, refl, refl, refl)))
  received-cases t (timeout at) =
      inr (timeout at, (record t { timeout_reported = true }, (refl, refl, refl, refl, refl, refl)))
  received-cases t connected =
      inr (connected, (record t { is_connected = true }, (refl, refl, refl, refl, refl, refl)))
  received-cases t (peer_cert der) = inr (
    peer_cert der,
    (record t { peer_certificate = some der }, (refl, refl, refl, refl, refl, refl)),
  )
  received-cases t (keying_material material profile) = inr (
    keying_material material profile,
    (record t { keying = some (material, profile) }, (refl, refl, refl, refl, refl, refl)),
  )
  received-cases t (application_data bytes) =
      inr (application_data bytes, (t, (refl, refl, refl, refl, refl, refl)))
  received-cases t close_notify = inr (closed, (t, (refl, refl, refl, refl, refl, refl)))

module _ {D F : Type 0} (k : Engine D F) where
  poll_output_ended :
      (fuel : ℕ) (t : DtlsTransport D)
      → t.timeout_reported ≡ true
      → poll_output k (suc fuel) t ≡ some (none, t)
  unfolding poll_output poll_once
  poll_output_ended fuel t e = rw e refl

  abbrev polled : DtlsTransport D → DtlsTransport D
  polled t = record t { dtls = (k.poll t.buf_len t.dtls).1 }

  poll_once_open :
      (t : DtlsTransport D)
      → t.timeout_reported ≡ false
      → poll_once k t ≡ received (polled t) (k.poll t.buf_len t.dtls).0
  unfolding poll_once
  poll_once_open t e = rw e refl

  poll_output_again :
      (fuel : ℕ) (t u : DtlsTransport D)
      → poll_once k t ≡ again u
      → poll_output k (suc fuel) t ≡ poll_output k fuel u
  unfolding poll_output
  poll_output_again fuel t u e = rw (e, poll_output) refl

  poll_output_out :
      (fuel : ℕ) (t u : DtlsTransport D) (o : Option Output)
      → poll_once k t ≡ output o u
      → poll_output k (suc fuel) t ≡ some (o, u)
  unfolding poll_output
  poll_output_out fuel t u o e = rw (e, poll_output) refl

  drain_ended :
      (fuel : ℕ) (t u : DtlsTransport D)
      → poll_output k (suc fuel) t ≡ some (none, u)
      → drain k (suc fuel) t ≡ some ([], u)
  unfolding drain
  drain_ended fuel t u e = rw (e, drain) refl

  drain_out :
      (fuel : ℕ) (t u : DtlsTransport D) (p : Output)
      → poll_output k (suc fuel) t ≡ some (some p, u)
      → drain k (suc fuel) t ≡ seen p (drain k fuel u)
  unfolding drain
  drain_out fuel t u p e = rw (e, drain) refl

  -- The loop ends, with one timeout, the last output, and the transport keeps what the outputs say.
  abbrev Drains : ℕ → DtlsTransport D → Type 0
  Drains fuel t =
      (outs : List Output) × ((u : DtlsTransport D) × ((drain k fuel t ≡ some (outs, u))
          × (view u ≡ latch_all outs (view t))
          × (u.timeout_reported ≡ true)
          × (ends_in_timeout outs ≡ true)))

  -- The loop ends, its outputs are those of a cycle, and the transport keeps what they say.
  abbrev pub Cycles : ℕ → DtlsTransport D → Type 0
  Cycles fuel t =
      (outs : List Output) × ((u : DtlsTransport D) × ((drain k fuel t ≡ some (outs, u))
          × (view u ≡ latch_all outs (view t))
          × (u.timeout_reported ≡ true)
          × (ends_cycle t.timeout_reported outs ≡ true)))

ends_cycle_fresh :
    (reported : Bool) (outs : List Output)
    → reported ≡ false
    → ends_in_timeout outs ≡ true
    → ends_cycle reported outs ≡ true
ends_cycle_fresh false outs e ends = ends
ends_cycle_fresh true outs e ends = absurd (ground (arith, e))

ends_cycle_over : (reported : Bool) → reported ≡ true → ends_cycle reported [] ≡ true
ends_cycle_over true e = refl
ends_cycle_over false e = absurd (ground (arith, e))

ends_in_timeout-cons :
    (p : Output) (outs : List Output)
    → is_timeout p ≡ false
    → ends_in_timeout (p ∷ outs) ≡ ends_in_timeout outs
ends_in_timeout-cons (timeout at) outs e = absurd (ground (arith, e))
ends_in_timeout-cons (packet x) outs e = refl
ends_in_timeout-cons connected outs e = refl
ends_in_timeout-cons (peer_cert der) outs e = refl
ends_in_timeout-cons (keying_material material profile) outs e = refl
ends_in_timeout-cons (application_data bytes) outs e = refl
ends_in_timeout-cons closed outs e = refl

ends_in_timeout-one : (p : Output) → is_timeout p ≡ true → ends_in_timeout (p ∷ []) ≡ true
ends_in_timeout-one (timeout at) e = refl
ends_in_timeout-one (packet x) e = absurd (ground (arith, e))
ends_in_timeout-one connected e = absurd (ground (arith, e))
ends_in_timeout-one (peer_cert der) e = absurd (ground (arith, e))
ends_in_timeout-one (keying_material material profile) e = absurd (ground (arith, e))
ends_in_timeout-one (application_data bytes) e = absurd (ground (arith, e))
ends_in_timeout-one closed e = absurd (ground (arith, e))

-- `left n d` bounds the outputs that the engine `d` still has before its timeout, for a buffer of length `n`.
module _ {D F : Type 0} (k : Engine D F) (left : ℕ → D → ℕ)
    (falls : (n : ℕ) (d : D)
      → is_last (k.poll n d).0 ≡ false
      → left (resized (k.poll n d).0 n) (k.poll n d).1 < left n d) where
  abbrev size : DtlsTransport D → ℕ
  size t = left t.buf_len t.dtls

  falls-to :
      (t u : DtlsTransport D)
      → u.dtls ≡ (k.poll t.buf_len t.dtls).1
      → u.buf_len ≡ resized (k.poll t.buf_len t.dtls).0 t.buf_len
      → is_last (k.poll t.buf_len t.dtls).0 ≡ false
      → size u < size t
  falls-to t u same room fresh = rw (same, room) (falls t.buf_len t.dtls fresh)

  abbrev Polls : ℕ → DtlsTransport D → Type 0
  Polls fuel t =
      (p : Output) × ((u : DtlsTransport D) × ((poll_output k (suc fuel) t ≡ some (some p, u))
          × (view u ≡ latch p (view t))
          × (u.timeout_reported ≡ is_timeout p)
          × (is_timeout p ≡ false → size u < size t)))

  -- After a retry the polling goes on as from the transport that it leaves.
  poll-after_retry :
      (fuel : ℕ) (t u : DtlsTransport D)
      → poll_once k t ≡ again u
      → view u ≡ view t
      → size u < size t
      → Polls fuel u
      → Polls (suc fuel) t
  poll-after_retry fuel t u e same less (p, (w, (gives, kept, flag, later))) = (
    p,
    (
      w,
      (
        poll_output_again k (suc fuel) t u e ∙ gives,
        kept ∙ ap (latch p) same,
        flag,
        λ early. omega (arith, later early, less),
      ),
    ),
  )

  abbrev Again : DtlsTransport D → Type 0
  Again t =
      (u : DtlsTransport D) × ((poll_once k t ≡ again u)
        × (view u ≡ view t)
        × (u.timeout_reported ≡ false)
        × (size u < size t))

  once : (fuel : ℕ) (t : DtlsTransport D) → t.timeout_reported ≡ false → Again t ⊎ Polls fuel t
  once fuel t fresh = elim (received-cases (polled k t) (k.poll t.buf_len t.dtls).0) [
    | inl (u, (e, same, flag, d, n, more)) ↦
        inl (u, (poll_once_open k t fresh ∙ e, same, flag ∙ fresh, falls-to t u d n more))
    | inr (p, (u, (e, same, flag, d, n, last))) ↦ inr (
      p,
      (
        u,
        (
          poll_output_out k fuel t u (some p) (poll_once_open k t fresh ∙ e),
          same,
          ground (arith, flag, fresh),
          λ early. falls-to t u d n (last ∙ early),
        ),
      ),
    )
  ]

  poll-Polls :
      (fuel : ℕ) (t : DtlsTransport D) → size t ≤ fuel → t.timeout_reported ≡ false → Polls fuel t
  poll-Polls zero t enough fresh = elim (once zero t fresh) [
    | inl (u, (e, same, flag, less)) ↦ absurd (omega (arith, enough, less))
    | inr done ↦ done
  ]
  poll-Polls (suc fuel) t enough fresh = elim (once (suc fuel) t fresh) [
    | inl (u, (e, same, flag, less)) ↦
        poll-after_retry fuel t u e same less (poll-Polls fuel u (omega (arith, enough, less)) flag)
    | inr done ↦ done
  ]

  -- A round of the loop: its output is the last one, or the loop goes on from the transport it leaves.
  drained_last :
      (fuel : ℕ) (t : DtlsTransport D) (polls : Polls (suc fuel) t)
      → is_timeout polls.0 ≡ true
      → Drains k (suc (suc fuel)) t
  drained_last fuel t (p, (u, (gives, kept, flag, later))) last =
      let none_left = drain_ended k fuel u u (poll_output_ended k fuel u (flag ∙ last)) in
      let all = drain_out k (suc fuel) t u p gives ∙ ap (seen p) none_left in
      (p ∷ [], (u, (all, kept, flag ∙ last, ends_in_timeout-one p last)))

  drained_early :
      (fuel : ℕ) (t : DtlsTransport D) (polls : Polls (suc fuel) t)
      → is_timeout polls.0 ≡ false
      → Drains k (suc fuel) polls.1.0
      → Drains k (suc (suc fuel)) t
  drained_early fuel t (p, (u, (gives, kept, flag, later))) early
        (outs, (w, (rest, after, ended, tail))) =
      let all = drain_out k (suc fuel) t u p gives ∙ ap (seen p) rest in
      let fold = after ∙ ap (latch_all outs) kept in
      (p ∷ outs, (w, (all, fold, ended, ends_in_timeout-cons p outs early ∙ tail)))

  drain-Drains :
      (fuel : ℕ) (t : DtlsTransport D)
      → size t ≤ fuel
      → t.timeout_reported ≡ false
      → Drains k (suc (suc fuel)) t
  drain-Drains zero t enough fresh =
      let polls = poll-Polls (suc zero) t (omega (arith, enough)) fresh in
      elim (Bool-cases (is_timeout polls.0)) [
        | inl last ↦ drained_last zero t polls last
        | inr early ↦ absurd (omega (arith, enough, polls.1.1.3 early))
      ]
  drain-Drains (suc fuel) t enough fresh =
      let polls = poll-Polls (suc (suc fuel)) t (omega (arith, enough)) fresh in
      elim (Bool-cases (is_timeout polls.0)) [
        | inl last ↦ drained_last (suc fuel) t polls last
        | inr early ↦ drained_early (suc fuel) t polls early (
            drain-Drains fuel polls.1.0 (omega (arith, enough, polls.1.1.3 early))
              (polls.1.1.2 ∙ early))
      ]

  -- Where the polls of the engine before its next timeout are bounded, the loop that drains a transport
  -- ends within two rounds more than the bound. If the transport had reported the timeout of its cycle
  -- before, there are no outputs; otherwise they have one timeout, which comes last. The timeout is then
  -- reported, and the certificate, the keys and the flags that the transport keeps are the fold of the
  -- outputs over those it had.
  pub drain_ends : (t : DtlsTransport D) → Cycles k (suc (suc (size t))) t
  drain_ends t = elim (Bool-cases t.timeout_reported) [
    | inl over ↦
        let at_once =
          drain_ended k (suc (size t)) t t (poll_output_ended k (suc (size t)) t over) in
        ([], (t, (at_once, refl, over, ends_cycle_over t.timeout_reported over)))
    | inr fresh ↦
        let (outs, (u, (all, kept, ended, tail))) = drain-Drains (size t) t (omega arith) fresh in
        (outs, (u, (all, kept, ended, ends_cycle_fresh t.timeout_reported outs fresh tail)))
  ]
