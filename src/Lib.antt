-- ===== src/Lib.antt =====
-- Verification of wroom, a WebRTC selective forwarding unit. The server keeps rooms,
-- participants, their published tracks and their subscriptions in a registry
-- (server/crates/wroom-core), speaks ICE, DTLS, SRTP, RTP and RTCP with each peer
-- (server/crates/wroom-edge), and joins the two in a signaling session
-- (server/crates/wroom-signaling) and a media plane (server/crates/wroomd).
--
-- Files. Common holds what the parts share: tests, lists, maps, sets, bits, bytes, decimal
-- numbers and results. Registry models server/crates/wroom-core/src/room.rs: `join`, `leave`,
-- `publish`, `unpublish`, `set_muted` and `update_subscriptions` under their own names, each
-- from the registry to its result and the registry it leaves; Registry/Types has the data,
-- Registry/Tracks and Registry/Subscriptions the parts that act on one participant, and the
-- rest are proofs. Srtp models server/crates/wroom-edge/src/srtp.rs: Srtp/Window the index
-- window (`guess`, `send_index`, `check`, and `record` as `record_index`), Srtp/Streams the
-- table of streams (`find`, `get`, `get_mut_or_insert`), Srtp/Ciphers the IVs, the key
-- derivation and the session ciphers, Srtp/Packets `decrypt_rtp` and `encrypt_rtp`, and
-- Srtp/Control `decrypt_rtcp` and `encrypt_rtcp`. Rtp models
-- server/crates/wroom-edge/src/rtp.rs: Rtp/Extensions `ExtMap` and `ExtIter`, Rtp/Packet
-- `parse` and the views of a packet, Rtp/Rewriting `rewrite_into`. Rtcp models
-- server/crates/wroom-edge/src/rtcp.rs: Rtcp/Block `Block::parse` and `write_header`,
-- Rtcp/Reports sender and receiver reports, Rtcp/Sources SDES and BYE, Rtcp/Feedback NACK, PLI,
-- FIR and REMB, Rtcp/Twcc the transport-wide feedback with its iterator, Rtcp/Twcc/Building its
-- builder, and Rtcp/Compound `RtcpPacket` and the walk over a datagram. Ice models
-- server/crates/wroom-edge/src/ice.rs: Ice/Stun `Message`, Ice/Building `MessageBuilder`, and
-- Ice/Agent `IceLiteAgent`. Dtls models server/crates/wroom-edge/src/dtls.rs: `DtlsTransport`,
-- and Dtls/Draining the loop that drains it. Session models
-- server/crates/wroom-signaling/src/session.rs over Registry: Session/Messages the messages of
-- proto/wroom/signaling/v1/signaling.proto and their conversions, Session/Machine the state,
-- and Session/Machine/Handlers `handle`, `close` and what they call. Media models
-- server/crates/wroomd/src/media.rs: Media/Messages the control messages, Media/Rooms
-- `RoomShard` and `MemberShard`, Media/Router `Router::on_control` and the offers that wait,
-- Media/Shards `Shard::on_control`, Media/Fanout `rebuild_fanout`, Media/Plane the router and a
-- shard that receives what it sends, Media/Feedback `RrSlot`, Media/Receiving
-- `RecvFeedback::on_rtp`, `twcc_to_deltas` and `flush_twcc`, and Media/Reporting `on_rtcp`,
-- `send_rr` and the feedback part of `on_tick`. Examples files apply the theorems at concrete inputs.
--
-- Model. Numbers are natural; the wrap-around of `u64` and `u32` is written out where the code
-- relies on it. A `BTreeMap` is a list of entries without a key twice, whose order no operation
-- reads. A `String` is its UTF-8 bytes. A panic of the registry is the outcome `panicked`. A
-- write through a mutable reference is a change of the slot or entry that the reference points
-- to. The loops run over lists; only the loops over the elements of a byte string have fuel,
-- the length of the data, since each element takes a byte or more. A builder gives its result
-- and the buffer that it leaves, with its writes in place. A packet path that decrypts is an
-- open, which only reads the state, and a commit. The channel to a shard delivers its messages
-- in order, and channels, sockets and legs are numbers. An instant is a number of nanoseconds,
-- and in the feedback to a publisher the arithmetic on `u32` and `i64` wraps as in a release
-- build.
--
-- Parameters. The engine of the crate dimpl is the record `Engine`, whose outputs before a
-- timeout are assumed to be finitely many where the loop that drains it is proved to end. The
-- primitives of the crates aes, aes-gcm, ctr and hmac are fields of `Crypto`, the tag and the
-- checksum of STUN messages fields of `Digests`, the token verifier and the floating-point
-- token bucket of the chat fields of `Env`. The floating-point conversion of the delay in a
-- receiver report is a function from nanoseconds, whose values are assumed to be words where
-- the report is read back. Nothing else is assumed of them.
--
-- Not modelled: SDP, the transport demultiplexer, the legs of the media plane with its
-- forwarding over sockets and rings and its active speakers, threads, the WebSocket server, and
-- the web client, which wrap libraries or do input and output or are left for later. The debug
-- assertions on lengths in the key derivation are left out, and so is logging.
pub mod Common
pub mod Dtls
pub mod Ice
pub mod Media
pub mod Registry
pub mod Rtcp
pub mod Rtp
pub mod Session
pub mod Srtp
