-- ===== src/Samples/DecoderWitnesses.antt =====
-- A line of a syslog daemon, on which the theorems of the decoder of the old format are applied.
use skewer.Prelude.{[], ◌≡◌, refl, arith, Bytes, none, some, if◌then◌else◌, false, codes}
use skewer.Prelude.Int.{pos}
use skewer.Decoders.Texts.{trim_space}
use skewer.Encoders.Rfc5424.{SyslogMessage}
use skewer.Encoders.Rfc3164.{encode_msg_3164}
use skewer.Decoders.Rfc3164.{Layouts, has_colon, with_priority, p3164}
use skewer.Decoders.Rfc3164.Message.{Proper}
use skewer.Decoders.Rfc3164.RoundTrip.{p3164-encode_msg_3164}

unread : (t : Bytes) → has_colon t ≡ false → (if has_colon t then some (pos 5) else none) ≡ none
unread t h = rw h refl

-- Layouts that read each text with a clock as the same time.
abbrev layouts : Layouts
layouts = record {
  stamp = λ t. if has_colon t then some (pos 5) else none;
  rfc3339_nano = λ t. none;
  rfc3339 = λ t. none;
  stamp-clock = unread;
}

abbrev sample_message : SyslogMessage
sample_message = record {
  priority = 13;
  time_reported = codes "Oct 11 22:14:15";
  host_name = codes "host ";
  app_name = codes "app";
  proc_id = codes "42";
  msg_id = [];
  message = codes "hi x";
  properties = [];
}

trimmed_host : trim_space sample_message.host_name ≡ codes "host"
unfolding trim_space
trimmed_host = refl

trimmed_proc : trim_space sample_message.proc_id ≡ codes "42"
unfolding trim_space
trimmed_proc = refl

sample-Proper :
    Proper layouts
      (pos 5)
      b'O'
      (codes "ct")
      (codes "11")
      (codes "22:14:15")
      (codes "host")
      b'a'
      (codes "pp")
      (codes "42")
      b'h'
      (codes "i x")
sample-Proper = record {
  words = record {
    month_word = refl;
    day_word = refl;
    clock_word = refl;
    host_word = refl;
    tag_word = refl;
  };
  no_digit = refl;
  no_blank = refl;
  host_unmarked = refl;
  host_letters = refl;
  app_unmarked = refl;
  proc_unmarked = refl;
  stamped = refl;
  trimmed_end = refl;
}

p3164-encode_msg_3164_example :
    p3164 layouts (pos 9) (encode_msg_3164 [] sample_message)
    ≡ record (with_priority (pos 9) (pos 13)) {
      time_reported = pos 5;
      host_name = codes "host";
      app_name = codes "app";
      proc_id = codes "42";
      message = codes "hi x";
    }
p3164-encode_msg_3164_example =
    p3164-encode_msg_3164 layouts (pos 9) (pos 5) [] sample_message b'O' (codes "ct") (codes "11")
      (codes "22:14:15") b'h' (codes "ost") b'a' (codes "pp") b'4' (codes "2") b'h' (codes "i x")
      (omega arith) refl trimmed_host refl trimmed_proc refl sample-Proper
