-- ===== src/Samples/FormatWitnesses.antt =====
-- The theorems on the encoders and the waiter, applied to samples.
use skewer.Prelude.{
  ◌≡◌, ◌++◌, refl, some, [], ◌∷◌, false, Bytes, codes, inl, arith, if◌then◌else◌, ltb, leb, min,
  ◌*◌, ◌^◌, ◌-◌,
}
use skewer.Prelude.Outcome.{ok}
use skewer.Prelude.Int.{pos, negsuc}
use skewer.Encoders.Rfc5424.{
  SyslogMessage, invalid_rfc5424, nilify, escape_sd_param, body, first_word, whole_text,
  encode_msg_5424,
}
use skewer.Encoders.Rfc5424.Values.{read_value, read_value-escape_sd_param}
use skewer.Encoders.Rfc5424.Header.{words, words-encode_msg_5424}
use skewer.Waiter.{W, default, delay}
use skewer.Waiter.Delays.{delay_lem, delay-overflow}

abbrev quoted : Bytes
quoted = codes "a\"]b"

read_value-escape_sd_param_example :
    read_value (escape_sd_param quoted ++ b'"' ∷ codes " x") false ≡ some (quoted, codes " x")
read_value-escape_sd_param_example = read_value-escape_sd_param quoted (codes " x")

abbrev login : SyslogMessage
login = record {
  priority = 38;
  time_reported = codes "2018-07-01T12:00:00Z";
  host_name = codes "host";
  app_name = codes "sshd";
  proc_id = [];
  msg_id = [];
  message = codes "session opened";
  properties = (codes "id", (codes "user", quoted) ∷ []) ∷ [];
}

login-encoded : encode_msg_5424 login ≡ ok (whole_text login)
unfolding encode_msg_5424 invalid_rfc5424
login-encoded = refl

words-encode_msg_5424_example : words 6 (whole_text login) ≡ (
  first_word login
      ∷ login.time_reported
      ∷ nilify login.host_name
      ∷ nilify login.app_name
      ∷ nilify login.proc_id
      ∷ nilify login.msg_id
      ∷ [],
  body login,
)
words-encode_msg_5424_example = words-encode_msg_5424 login (whole_text login) refl login-encoded

abbrev third_wait : W
third_wait = record default { calls = 27 }

delay_lem_example : delay third_wait ≡ (
    if ltb third_wait.calls third_wait.midsteps
    then pos 0
    else if leb third_wait.steps third_wait.calls
    then pos third_wait.maxwait
    else pos (min (1000000 * 10 ^ (third_wait.calls - third_wait.midsteps)) third_wait.maxwait))
delay_lem_example = delay_lem third_wait (inl (omega arith))

abbrev late : W
late = record default { calls = 38 }

delay-overflow_example : delay late ≡ negsuc 8446744073709551615
delay-overflow_example = delay-overflow late refl (omega arith)
