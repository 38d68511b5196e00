-- ===== src/Lib.antt =====
-- reolinkproxy connects Reolink cameras, which speak the Baichuan protocol, to RTSP clients. A
-- connection runs over TCP or, for cameras known by a UID, over a reliable session on UDP datagrams;
-- on it travel framed messages with encrypted XML and binary blocks; the binary messages of a
-- preview carry a media stream, whose video and audio packets are translated for RTP.
--
-- The modules, in the order in which bytes pass through them:
--
-- - Udp: pkg/baichuan/udp.go, the datagrams (marshalUDPPacket, parseUDPPacket, udpCRC32).
-- - Session: pkg/baichuan/uid.go and the window functions of udp.go. A Session is the part of
--   uidSession that its two loops change; `receive` is a round of readLoop, `send_chunk` and `tick`
--   are two arms of writeLoop, `write` is Write, and Session.Read is Read. A map of Go is an
--   association list.
-- - Crypto: pkg/baichuan/crypto.go, the XOR ciphers, the choice of a cipher and the key.
-- - Message: pkg/baichuan/message.go, with types.go and the cipher state of client.go. `read_message`
--   is readMessage on the bytes that the transport still delivers; `encode_request`, in
--   Message.Encode, is encodeRequest.
-- - Client: dispatch and keepAliveLoop of pkg/baichuan/client.go, and in Client.Preview the reader
--   that StartPreview starts.
-- - Media: pkg/baichuan/media.go, the incremental parser of the media stream.
-- - Translator: pkg/media/translator.go, the functions on NAL units.
-- - Codec: pkg/codec, IMA ADPCM and the companded formats.
-- - Pause: pkg/bridge/pause.go, when a stream pauses.
-- - Examples: runs on concrete inputs.
-- - Support: pkg/baichuan/support.go, the capability report after its XML was decoded.
-- - Ability: pkg/baichuan/ability.go, the ability table after its XML was decoded, and the test that an
--   operation makes of it; a Go map is a function there.
-- - Motion: pkg/baichuan/motion.go, alarm and YOLO World pushes after their XML was decoded, and in
--   Motion.Merging the AlarmMerger.
-- - Talk: pkg/bridge/talk_pipeline.go: the volume, the test for silence and the resampler, and in
--   Talk.Blocks runBridgeInternal, whose loop `run_bridge` is on the packets that it handles; the
--   packets that it drops while the session opens are not among them. The resampler's loop runs on as
--   many rounds as there are positions before its limit, and the loop of writeBlocks on one more than
--   the samples that wait.
-- - Timing: the clocks of pkg/bridge/stream_run.go: the guard of RTP timestamps, the unwrapping of
--   the camera's 32-bit times, the media timeline, and the live edge that skips late video.
-- - Device: pkg/bridge/device.go, the connection to a camera that its streams share. `ensure`,
--   `close_locked` and `reset_if_current` are Ensure, closeLocked and ResetIfCurrent; Notify is
--   notifyState with its goroutine as a step relation, Preview is StreamPackets and pumpPreview,
--   TalkRetry is resilientTalkSession, Renewing is runEventSession's ticker, Webhook is
--   subscribeWebhook and watchLowPower.
-- - Rtsp: the sessions of pkg/bridge/rtsp.go and the talk bridges of pkg/bridge/talk_rtsp.go, with
--   one function for each handler; which stream and talk a path has is an argument of theirs. In
--   Rtsp.Mirrors a stream handler is a tree with its mirrors, with setReady, reset and writePacket,
--   and idleGate of pkg/bridge/bridge.go; Rtsp.Audio is audioPublisher, after the packet's units were
--   parsed, with the timestamps that the RTP encoder gives as an argument.
-- - StreamRun: runStream of pkg/bridge/stream_run.go, the loop that turns the media packets of a
--   camera into RTP packets: `step` is the body of its loop, whose stages are functions of their own,
--   and a Moment is what the clock, the encoders, setReady and shouldPause say then.
-- - TalkSession: pkg/baichuan/talk.go, the choice of a talk's configuration, after encoding/xml, and
--   the blocks that are written on a session until it is closed.
-- - Bridge: pkg/bridge/bridge.go, the cameras that are added and removed, with the configuration of
--   pkg/bridge/config.go in Bridge.Config and the maps of rtspServerHandler, pkg/bridge/rtsp.go, in
--   Bridge.Served. A map of Go is an association list there, too.
--
-- Bytes and unsigned integers are natural numbers with the wrap-around written out; Go's signed
-- integers are the integers of Base.Int. Loops that are not over a list run on fuel: the packets in
-- the map for contiguousPayloads (each round takes one out), one more than that for the search in
-- ackWindow and 202 for its bitmap of at most 200 ids, the length of the buffer for Write and
-- SplitAnnexB, one more for Append (each packet takes eight bytes or more). Where a loop of the
-- source may not end, the model has a value of its own for that: `stuck` in ackWindow, which one id
-- near the end of 32 bits leads to. `panic` in Media is Go's panic on a slice out of range.
--
-- MD5, AES-CFB, encoding/xml, strings.TrimSpace (written out in Bridge.Paths alone), unicode.ToLower,
-- strings.ToLower, float64, the clock, what a dial gives and what a camera answers are parameters. Clients, sessions, stream handlers and talk bridges
-- are known by numbers of their own. Where the source waits on several events, a run of the model is
-- a list of what happened, in any order. After an error of readMessage the client is closed, so the state that an
-- error leaves is not kept.
--
-- Not modelled: sockets, dialling and discovery, login, the XML documents of the camera commands,
-- the requests of talk, gortsplib, the answers to DESCRIBE and SETUP, and the events that the bridge
-- passes on.
pub mod Base
pub mod Udp
pub mod Crypto
pub mod Session
pub mod Message
pub mod Media
pub mod Codec
pub mod Translator
pub mod Client
pub mod Pause
pub mod Support
pub mod Ability
pub mod Motion
pub mod Talk
pub mod Timing
pub mod Device
pub mod Rtsp
pub mod StreamRun
pub mod TalkSession
pub mod Bridge
pub mod Examples
