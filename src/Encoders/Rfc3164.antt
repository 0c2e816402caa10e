-- ===== src/Encoders/Rfc3164.antt =====
-- Messages in the old syslog format (encoders/rfc3164.go). The time is its text in the format
-- `time.Stamp`, and the priority is not negative. `local` is what `os.Hostname` gives.
use skewer.Prelude.{[], ◌∷◌, ◌++◌, Bytes}
use skewer.Frames.{digits_from}
use skewer.Decoders.Texts.{trim_space}
use skewer.Encoders.Rfc5424.{SyslogMessage}

abbrev pub in_brackets : Bytes → Bytes
in_brackets [] = []
in_brackets (c ∷ s) = b'[' ∷ ((c ∷ s) ++ b']' ∷ [])

abbrev pub or_local : Bytes → Bytes → Bytes
or_local local [] = local
or_local local (c ∷ s) = c ∷ s

-- `encodeMsg3164`, whose writer takes all bytes
unfoldable pub encode_msg_3164 : (local : Bytes) → SyslogMessage → Bytes
encode_msg_3164 local m =
    b'<'
    ∷ (digits_from 20 1 m.priority []
        ++ b'>'
          ∷ (m.time_reported
              ++ b' '
                ∷ (or_local local (trim_space m.host_name)
                    ++ b' '
                      ∷ (m.app_name
                          ++ (in_brackets (trim_space m.proc_id) ++ b':' ∷ b' ' ∷ m.message)))))
