-- ===== src/CallEnd.antt =====
-- src/hermes_voip/call_end.py: why a call ended, and what the session is told of it.
use hermes_voip.Base.{Bool, true, false, if◌then◌else◌, ◌≡◌, ◌↔◌, arith}

pub data CallEndReason : Type 0 where
  remote_bye agent_hangup eos media_timeout pipeline_failure sip_error connection_lost
        registration_lost max_call_duration :
      CallEndReason

-- The values that the members carry.
unfoldable pub was_failure : CallEndReason → Bool
was_failure remote_bye = false
was_failure agent_hangup = false
was_failure eos = false
was_failure media_timeout = true
was_failure pipeline_failure = true
was_failure sip_error = true
was_failure connection_lost = true
was_failure registration_lost = true
was_failure max_call_duration = true

unfoldable pub can_followup : CallEndReason → Bool
can_followup remote_bye = true
can_followup agent_hangup = true
can_followup eos = true
can_followup media_timeout = false
can_followup pipeline_failure = false
can_followup sip_error = false
can_followup connection_lost = false
can_followup registration_lost = false
can_followup max_call_duration = false

unfoldable pub classify_clean_return : Bool → CallEndReason
classify_clean_return by_agent = if by_agent then agent_hangup else remote_bye

abbrev pub fail_safe : CallEndReason
fail_safe = pipeline_failure

-- The two texts, by what they mean: `/stop`, and the note that the gateway replays.
pub data Injection : Type 0 where
  stop_command normal_end_note : Injection

unfoldable pub injection_text_for_reason : CallEndReason → Injection
unfolding was_failure
injection_text_for_reason r = if was_failure r then stop_command else normal_end_note

-- The session is stopped exactly for the ends that leave no follow-up, whatever the reason; a clean
-- return leaves the session open and the reason of an unexplained end stops it.
pub injection_text_for_reason_lem :
    (r : CallEndReason) (by_agent : Bool)
    → ((injection_text_for_reason r ≡ stop_command) ↔ (can_followup r ≡ false))
      × ((injection_text_for_reason (classify_clean_return by_agent) ≡ normal_end_note)
          × (injection_text_for_reason fail_safe ≡ stop_command))
unfolding injection_text_for_reason can_followup classify_clean_return was_failure
injection_text_for_reason_lem remote_bye true = ground arith
injection_text_for_reason_lem remote_bye false = ground arith
injection_text_for_reason_lem agent_hangup true = ground arith
injection_text_for_reason_lem agent_hangup false = ground arith
injection_text_for_reason_lem eos true = ground arith
injection_text_for_reason_lem eos false = ground arith
injection_text_for_reason_lem media_timeout true = ground arith
injection_text_for_reason_lem media_timeout false = ground arith
injection_text_for_reason_lem pipeline_failure true = ground arith
injection_text_for_reason_lem pipeline_failure false = ground arith
injection_text_for_reason_lem sip_error true = ground arith
injection_text_for_reason_lem sip_error false = ground arith
injection_text_for_reason_lem connection_lost true = ground arith
injection_text_for_reason_lem connection_lost false = ground arith
injection_text_for_reason_lem registration_lost true = ground arith
injection_text_for_reason_lem registration_lost false = ground arith
injection_text_for_reason_lem max_call_duration true = ground arith
injection_text_for_reason_lem max_call_duration false = ground arith
