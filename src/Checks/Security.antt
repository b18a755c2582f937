-- ===== src/Checks/Security.antt =====
-- src/hermes_voip/media/srtp.py: a session on cryptography that is only of the right shape.
use hermes_voip.Base.{ℕ, ◌≡◌, refl, List, [], ◌∷◌, replicate, none, arith}
use hermes_voip.Srtp.{
  Crypto, SrtpSession, SrtpError, bad_rtp, replayed, receive, verify, unprotect, estimate_roc,
  packet_index,
}
use hermes_voip.Srtp.Trace.{IsNew, AllDistinct, indices, unprotect_once, unprotect_refused, after}

abbrev pub shape : Crypto
shape = record {
  aes_ctr = λ (key iv : List ℕ) (n : ℕ). replicate n 0;
  hmac_sha1 = λ (key message : List ℕ). replicate 20 0;
}

abbrev session : SrtpSession
session = record {
  k_e = [];
  k_s = [];
  k_a = [];
  tag_len = 4;
  ssrc = none;
  roc = 0;
  seq_top = none;
  replay_mask = 0;
}

-- A packet of source 7 with sequence number 5, one byte of payload and a tag.
abbrev datagram : List ℕ
datagram = 128 ∷ 0 ∷ 0 ∷ 5 ∷ 0 ∷ 0 ∷ 0 ∷ 0 ∷ 0 ∷ 0 ∷ 0 ∷ 7 ∷ 9 ∷ 0 ∷ 0 ∷ 0 ∷ 0 ∷ []

session-IsNew : IsNew session
session-IsNew = record { no_top = refl }

unprotect_once_example : AllDistinct (indices shape session (datagram ∷ datagram ∷ []))
unprotect_once_example = unprotect_once shape session (datagram ∷ datagram ∷ []) session-IsNew

abbrev seen : SrtpSession
seen = after shape session (datagram ∷ [])

unprotect_refused_example : (unprotect shape seen datagram).1 ≡ seen
unfolding after unprotect receive verify hermes_voip.Srtp.auth_tag hermes_voip.Srtp.bind_ssrc
    hermes_voip.Srtp.check_replay hermes_voip.Srtp.decrypt hermes_voip.Srtp.update_state
    estimate_roc
unprotect_refused_example =
    unprotect_refused shape session (datagram ∷ []) datagram replayed session-IsNew refl
      (λ x h. ground arith)
