-- ===== src/Decoders/Rfc3164.antt =====
-- The decoder of old syslog messages (decoders/rfc3164_format.go).
--
-- The text is ASCII: a byte of 128 or more is taken for no space and for no letter. The layouts of
-- package time are a parameter that gives the nanoseconds; that of `time.Stamp` adds the year.
pub mod Header
pub mod Message
pub mod RoundTrip
use skewer.Prelude.{
  ℕ, zero, suc, ◌+◌, ◌-◌, ◌*◌, ◌/◌, ◌%◌, ◌^◌, ◌<◌, Bool, true, false, not, ◌&&◌, ◌||◌, Option, none,
  some, List, [], ◌∷◌, ◌++◌, ◌≡◌, Bytes, codes, length, take, drop, ltb, leb, ◌==◌, if◌then◌else◌,
}
use skewer.Prelude.Int.{ℤ, pos, negsuc, to_int32}
use skewer.Frames.{is_digit, all_digits, atoi}
use skewer.Decoders.Texts.{quot, rem, atoi_int, is_space, trim_space, index, split, join, count}

-- `bytes.ContainsAny(s, "[]:")`
abbrev pub has_mark : Bytes → Bool
has_mark [] = false
has_mark (c ∷ s) = c == b'[' || c == b']' || c == b':' || has_mark s

-- `isHostname`
abbrev pub is_hostname : Bytes → Bool
is_hostname [] = true
is_hostname (c ∷ s) =
    ((leb b'a' c && leb c b'z')
      || (leb b'A' c && leb c b'Z')
      || is_digit c
      || c == b'.'
      || c == b':'
      || c == b'-'
      || c == b'_')
    && is_hostname s

abbrev pub has_colon : Bytes → Bool
has_colon [] = false
has_colon (c ∷ s) = c == b':' || has_colon s

-- `time.Parse` with `time.Stamp`, moved to the present year, with `time.RFC3339Nano`, and with
-- `time.RFC3339`; a stamp has colons in its clock.
pub record Layouts : Type 0 where
  pub stamp : Bytes → Option ℤ
  pub rfc3339_nano : Bytes → Option ℤ
  pub rfc3339 : Bytes → Option ℤ
  pub stamp-clock : (t : Bytes) → has_colon t ≡ false → stamp t ≡ none

-- The fields of `model.SyslogMessage` that the decoder writes.
pub record Decoded : Type 0 where
  pub priority : ℤ
  pub facility : ℤ
  pub severity : ℤ
  pub time_reported : ℤ
  pub time_generated : ℤ
  pub host_name : Bytes
  pub app_name : Bytes
  pub proc_id : Bytes
  pub message : Bytes

-- `parseTag`: the name and the process of a tag, by the places of the brackets.
abbrev pub colons_left : Bytes → Bytes
colons_left [] = []
colons_left (c ∷ s) = if c == b':' then colons_left s else c ∷ s

abbrev pub colon_last : ℕ → Bytes → Bytes
colon_last c [] = if c == b':' then [] else c ∷ []
colon_last c (d ∷ s) = c ∷ d ∷ s

abbrev pub colons_right : Bytes → Bytes
colons_right [] = []
colons_right (c ∷ s) = colon_last c (colons_right s)

unfoldable pub proc_of : Bytes → ℕ → Option ℕ → Bytes
proc_of tag i none = drop (i + 1) tag
proc_of tag i (some j) = if ltb i j then drop (i + 1) (take j tag) else drop (i + 1) tag

unfoldable pub tag_parts : Bytes → Option ℕ → Bytes × Bytes
unfolding proc_of
tag_parts tag none = (tag, [])
tag_parts tag (some i) =
    if ltb (i + 1) (length tag) then (take i tag, proc_of tag i (index b']' tag)) else (tag, [])

unfoldable pub parse_tag : Bytes → Bytes × Bytes
unfolding tag_parts
parse_tag tag = let t = colons_right (colons_left tag) in tag_parts t (index b'[' t)

unfoldable pub with_tag : Bytes → Decoded → Decoded
unfolding parse_tag
with_tag tag m = let (app, proc) = parse_tag tag in record m { app_name = app; proc_id = proc }

-- Two words after the time.
unfoldable pub two_words : Bytes → Bytes → Decoded → Decoded
unfolding with_tag
two_words x y m =
    if count b':' x == 7 || count b'.' x == 3
    then (if has_mark y
        then with_tag y (record m { host_name = x })
        else record m { host_name = x; message = y })
    else if has_mark x
    then record (with_tag x m) { message = y }
    else if has_mark y
    then with_tag x (record m { host_name = x })
    else record m { app_name = x; message = y }

-- The words after the time.
unfoldable pub fields : List Bytes → Decoded → Decoded
unfolding two_words with_tag
fields [] m = m
fields (x ∷ []) m = record m { message = x }
fields (x ∷ y ∷ []) m = two_words x y m
fields (x ∷ y ∷ z ∷ ws) m =
    if has_mark x || not (is_hostname x)
    then record (with_tag x m) { message = join (y ∷ z ∷ ws) }
    else record (with_tag y (record m { host_name = x })) { message = join (z ∷ ws) }

-- The words after a time that was read; without a word more, there is the time alone.
unfoldable pub timed : ℤ → List Bytes → Decoded → Decoded
unfolding fields
timed t [] m = record m { time_reported = t }
timed t (w ∷ ws) m = fields (w ∷ ws) (record m { time_reported = t })

-- A text whose time was not read is all message.
unfoldable pub untimed : ℤ → Bytes → Decoded → Decoded
untimed now text m = record m { message = text; time_reported = now }

abbrev pub or_else : Option ℤ → Option ℤ → Option ℤ
or_else none b = b
or_else (some a) b = some a

unfoldable pub iso_time : Option ℤ → ℤ → Bytes → List Bytes → Decoded → Decoded
unfolding timed untimed
iso_time none now text ws m = untimed now text m
iso_time (some t) now text ws m = timed t ws m

-- A text without a priority, and the fields that a priority gives.
abbrev pub all_message : ℤ → Bytes → Decoded
all_message now text = record {
  priority = pos 0;
  facility = pos 0;
  severity = pos 0;
  time_reported = now;
  time_generated = now;
  host_name = [];
  app_name = [];
  proc_id = [];
  message = text;
}

abbrev pub with_priority : ℤ → ℤ → Decoded
with_priority now p = record {
  priority = to_int32 p;
  facility = to_int32 (quot p 8);
  severity = to_int32 (rem p 8);
  time_reported = pos 0;
  time_generated = now;
  host_name = [];
  app_name = [];
  proc_id = [];
  message = [];
}

module _ (l : Layouts) where
  -- The stamp of the old format takes three words.
  unfoldable pub old_time : ℤ → Bytes → List Bytes → Decoded → Decoded
  unfolding iso_time untimed
  old_time now text (a ∷ b ∷ c ∷ ws) m = iso_time (l.stamp (join (a ∷ b ∷ c ∷ []))) now text ws m
  old_time now text _ m = untimed now text m

  unfoldable pub iso_words : ℤ → Bytes → List Bytes → Decoded → Decoded
  unfolding iso_time
  iso_words now text [] m = m
  iso_words now text (w ∷ ws) m = iso_time (or_else (l.rfc3339_nano w) (l.rfc3339 w)) now text ws m

  -- The text after the priority.
  unfoldable pub after_priority : ℤ → Bytes → Decoded → Decoded
  unfolding old_time iso_words
  after_priority now [] m = m
  after_priority now (c ∷ s) m =
      if is_digit c
      then iso_words now (c ∷ s) (split (c ∷ s)) m
      else old_time now (c ∷ s) (split (c ∷ s)) m

  unfoldable pub after_number : ℤ → Bytes → ℕ → Option ℤ → Decoded
  unfolding after_priority
  after_number now text end none = all_message now text
  after_number now text end (some p) =
      after_priority now (trim_space (drop (end + 1) text)) (with_priority now p)

  unfoldable pub bracketed : ℤ → Bytes → Option ℕ → Decoded
  unfolding after_number
  bracketed now text none = all_message now text
  bracketed now text (some end) =
      if leb end 1
      then all_message now text
      else after_number now text end (atoi_int (drop 1 (take end text)))

  unfoldable pub trimmed_text : ℤ → Bytes → Decoded
  unfolding bracketed
  trimmed_text now [] = all_message now []
  trimmed_text now (c ∷ s) =
      if c == b'<' then bracketed now (c ∷ s) (index b'>' (c ∷ s)) else all_message now (c ∷ s)

  -- `p3164`, which gives one message and no error; `now` is the time of the call
  unfoldable pub p3164 : ℤ → Bytes → Decoded
  unfolding trimmed_text trim_space
  p3164 now text = trimmed_text now (trim_space text)
