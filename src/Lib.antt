-- ===== src/Lib.antt =====
-- Formal model of hermes-voip, the SIP and RTP endpoint of a voice agent.
--
-- The bytes of a connection are cut into messages (src/hermes_voip/transport/framing.py). An extension
-- registers (src/hermes_voip/registration.py) and answers challenges (src/hermes_voip/digest.py).
-- A call is a SIP dialog (src/hermes_voip/dialog.py) whose INVITE runs in a transaction
-- (src/hermes_voip/transport/transaction.py) on messages of src/hermes_voip/message.py, kept alive
-- by a session timer (src/hermes_voip/session_timer.py). Its audio is RTP under SRTP: a datagram
-- is opened by src/hermes_voip/media/srtp.py, put in order by the jitter buffer of
-- src/hermes_voip/rtp.py, and played. Key-presses arrive as telephone events or as tones
-- (src/hermes_voip/dtmf.py) and may confirm an action (src/hermes_voip/dtmf_confirm.py). The end
-- of a call has a reason (src/hermes_voip/call_end.py) that is told to the session.
-- Codecs and keys are agreed on in SDP (src/hermes_voip/sdp.py), a call is transferred by REFER
-- (src/hermes_voip/refer.py), and reports go by RTCP (src/hermes_voip/rtcp.py).
--
-- Files:
--   Base, Base.*      shared names, Boolean tests, results, dictionaries, bytes, bits and texts
--   Rtp.Serial        `_seq_before`, `_seq_next`; `ahead a b` is `(b - a) % 65536`
--   Rtp.Packet        `RtpPacket`: `make` is `__post_init__`; Rtp.Packet.Wire has its round trip
--   Rtp.Jitter        `JitterBuffer`: one function for each method, the buffer passed and returned;
--                     `init` is `__init__`; the proofs are in Rtp.Jitter.*
--   Srtp              `SrtpSession` on a record `Crypto`; `verify` and `decrypt` are the two halves of
--                     `unprotect`; the proofs are in Srtp.Roc, Srtp.Replay, Srtp.Trace and
--                     Srtp.Sealed; Srtp.Link joins a sender to a receiver
--   Srtp.Session      the constructors: `from_attribute` is `__init__`; Delivery has the proof
--   Sdp               `Fingerprint`, `SetupRole`, the splitting at white space
--   Sdp.Crypto        `CryptoAttribute` and `_negotiate_answer_crypto`; RoundTrip and Choice have the
--                     proofs
--   Sdp.Audio         `negotiate_audio`, `negotiate_ptime`, `negotiate_media_security`; Codecs,
--                     Ranks, Limits and Security have the proofs
--   Transfer          the values of REFER and Replaces; Target has `_validate_transfer_target`,
--                     Requests the messages; Replaces, Target.Safe, Deliver, Blind and Progress
--                     have the proofs
--   Rtcp              report blocks and the common header; Texts has the UTF-8 of items, Packets the
--                     four packets and the compound; Blocks, Items and Compound have the proofs
--   Base.Base64       `base64.b64encode` and `base64.b64decode` of the Python library
--   Base.Percent      `urllib.parse.quote` and `unquote` of the Python library
--   Dtmf.Event        `DtmfEvent`, the keypad and `event_payloads`
--   Dtmf.Receiver     `DtmfReceiver`; Dtmf.Press joins it to the sender
--   Dtmf.Inband       `InbandDtmfDetector.feed` behind its filter
--   Dtmf.Confirm      `ArmedConfirmation`: `open_window` and `close_window` are the two ends of `arm`
--   SessionTimer      parsing, printing, negotiation and deadlines of RFC 4028
--   Message           `build_request`, the look-up of headers and the reading of a decimal
--   Message.Parse     `SipRequest.parse` and `SipResponse.parse`; Message.Parse.RoundTrip joins the
--                     first to the writer; Message.Response has `build_response`
--   Framer            `SipMessageFramer`: `frames` is an iteration to its end, `run` feeds chunks; the
--                     proofs are in Framer.Drain and Framer.Refine
--   Address           `split_header_list`, `name_addr_parts`, `split_params`, `tag_param`
--   Digest            `DigestChallenge.parse`, `pick_best_challenge`, `build_authorization`; the
--                     proofs are in Digest.*
--   Registration      Binding has the parts of a Contact, Flow has `RegistrationFlow`; Steps, Traffic
--                     and Grant have the proofs
--   Keepalive         the answers to requests outside a dialog
--   Routing           `RegistrationManager.route_request` and the table of calls; Routing.Calls joins
--                     it to the requests of a dialog
--   Dialog            `Dialog` and `build_in_dialog_request`; the proofs are in Dialog.*
--   Transaction       `InviteClientTransaction` and `InviteServerTransaction`
--   CallEnd           `CallEndReason` and `injection_text_for_reason`
--   Checks.*          the theorems at concrete inputs
--
-- Representation: numbers are natural numbers with wrap-around written out; a byte string is a list of
-- numbers and a text a list of code points; a dictionary is an association list in insertion order;
-- an exception is an `err` with one constructor for each message; seconds in floats are exact
-- fractions.
--
-- Fuel: `gap_scan` runs at most `max_ahead` rounds, where the loop of `_coalesced_gap` stops by its own
-- test; `durations` runs at most `total` rounds, since a step is at least 1; `show` divides at most
-- as often as the number is large, plus one. `drain` has one round for each byte and one more,
-- where a message has four bytes at least; `find_params` has one for each character; `read_packets` and
-- `read_items` have one for each byte, where a packet and an item have two at least. The theorems of
-- the values that these give hold because the fuel is enough.
--
-- Not modelled: cryptography and hashes, which are parameters, as are the codec of UTF-8 of a
-- connection, `str.lower` on other than the words that are looked for, and the word characters of
-- `re`; the tone filter, codecs and echo cancellation, which are float signal processing; sockets,
-- tasks and clocks, which are I/O; the speech services; the parser and the builders of whole
-- session descriptions, video and ICE; the statistics and the timing of RTCP, and SRTCP.
pub mod Base
pub mod Rtp
pub mod Rtcp
pub mod Srtp
pub mod Sdp
pub mod Dtmf
pub mod SessionTimer
pub mod Message
pub mod Transaction
pub mod Framer
pub mod Address
pub mod Digest
pub mod Registration
pub mod Dialog
pub mod Transfer
pub mod Keepalive
pub mod Routing
pub mod CallEnd
pub mod Checks
