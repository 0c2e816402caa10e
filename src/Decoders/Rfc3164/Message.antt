-- ===== src/Decoders/Rfc3164/Message.antt =====
-- What the decoder makes of a message with a priority and a stamp.
use skewer.Prelude.{
  ℕ, suc, ◌+◌, ◌<◌, ◌^◌, Bool, true, false, none, some, [], ◌∷◌, ◌++◌, ◌≡◌, refl, ap, ◌∙◌, arith,
  Bytes, length, take, drop, take-length_append, leb, ◌==◌, if◌then◌else◌, lt→ltb,
}
use skewer.Prelude.Int.{ℤ, pos}
use mathlib.Core.Path.{subst}
use skewer.Frames.RoundTrip.{drop_past}
use skewer.Frames.{is_digit, all_digits, atoi}
use skewer.Decoders.Texts.{atoi_int, is_space, trim_right, trim_space, index, split, join}
use skewer.Decoders.Rfc3164.{
  Layouts, Decoded, has_mark, has_colon, is_hostname, with_tag, fields, timed, untimed, iso_time,
  old_time, after_priority, all_message, with_priority, after_number, bracketed, trimmed_text,
  p3164,
}
use skewer.Decoders.Rfc3164.Header.{
  no_space, lacks, index-append, trim_right-append, split_cons, split-append, bracket_tag,
  parse_tag-bracket, header_text, HeaderWords, split-header_text,
}

atoi_int-digits :
    (d : ℕ) (ds : Bytes)
    → all_digits (d ∷ ds) ≡ true
    → atoi 0 (d ∷ ds) < 2 ^ 63
    → atoi_int (d ∷ ds) ≡ some (pos (atoi 0 (d ∷ ds)))
unfolding atoi_int
atoi_int-digits d ds h l =
    let minus : (d == b'-') ≡ false = ground arith in
    let plus : (d == b'+') ≡ false = ground arith in
    let fits = lt→ltb (atoi 0 (d ∷ ds)) (2 ^ 63) l in rw (minus, plus, h, fits) refl

digits-lacks : (s : Bytes) → all_digits s ≡ true → lacks b'>' s ≡ true
digits-lacks [] h = refl
digits-lacks (c ∷ s) h = ground (arith, digits-lacks s)

trim_space-solid :
    (c : ℕ) (s : Bytes)
    → is_space c ≡ false
    → trim_right (c ∷ s) ≡ c ∷ s
    → trim_space (c ∷ s) ≡ c ∷ s
unfolding trim_space
trim_space-solid c s n h = rw n h

-- The priority is taken off a text.
p3164-priority :
    (l : Layouts) (now : ℤ) (d : ℕ) (ds : Bytes) (c : ℕ) (s : Bytes)
    → all_digits (d ∷ ds) ≡ true
    → atoi 0 (d ∷ ds) < 2 ^ 63
    → is_space c ≡ false
    → trim_right (c ∷ s) ≡ c ∷ s
    → p3164 l now (b'<' ∷ ((d ∷ ds) ++ b'>' ∷ c ∷ s))
      ≡ after_priority l now (c ∷ s) (with_priority now (pos (atoi 0 (d ∷ ds))))
unfolding p3164 trimmed_text bracketed after_number
p3164-priority l now d ds c s digits small solid end =
    let pri = d ∷ ds in
    let text = b'<' ∷ (pri ++ b'>' ∷ c ∷ s) in
    let whole : trim_space text ≡ text =
      trim_space-solid b'<' (pri ++ b'>' ∷ c ∷ s) refl
        (trim_right-append (b'<' ∷ pri) b'>' (c ∷ s) (trim_right-append (b'>' ∷ []) c s end)) in
    let place : index b'>' text ≡ some (suc (length pri)) =
      index-append b'>' (b'<' ∷ pri) (c ∷ s) (digits-lacks pri digits) in
    let far : leb (suc (length pri)) 1 ≡ false = ground arith in
    let inner : take (suc (length pri)) text ≡ b'<' ∷ pri =
      take-length_append (b'<' ∷ pri) (b'>' ∷ c ∷ s) in
    let later : drop (suc (length pri) + 1) text ≡ c ∷ s =
      subst (λ k. drop k text ≡ c ∷ s) {x = suc (suc (length pri))} (omega arith)
        (drop_past (b'<' ∷ pri) b'>' (c ∷ s)) in
    let end' = suc (length pri) in
    let number : atoi_int (drop 1 (take end' text)) ≡ some (pos (atoi 0 pri)) =
      ap (λ x. atoi_int (drop 1 x)) inner ∙ atoi_int-digits d ds digits small in
    let past : bracketed l now text (some end')
        ≡ after_number l now text end' (atoi_int (drop 1 (take end' text))) =
      ap
        (λ (b : Bool).
          if b
          then all_message now text
          else after_number l now text end' (atoi_int (drop 1 (take end' text))))
        far in
    ap (trimmed_text l now) whole
    ∙ ap (bracketed l now text) place
    ∙ past
    ∙ ap (after_number l now text end') number
    ∙ ap (λ x. after_priority l now x (with_priority now (pos (atoi 0 pri))))
        (ap trim_space later ∙ trim_space-solid c s solid end)

-- The words of the header, the stamp and the end of the message are read as such.
pub record Proper (l : Layouts) (t : ℤ) (c : ℕ) (month day clock host : Bytes) (x : ℕ)
    (app proc : Bytes) (y : ℕ) (message : Bytes) : Type 0 where
  pub words : HeaderWords (c ∷ month) day clock host (bracket_tag (x ∷ app) proc)
  pub no_digit : is_digit c ≡ false
  pub no_blank : is_space c ≡ false
  pub host_unmarked : has_mark host ≡ false
  pub host_letters : is_hostname host ≡ true
  pub app_unmarked : has_mark (x ∷ app) ≡ false
  pub proc_unmarked : has_mark proc ≡ false
  pub stamped : l.stamp (join ((c ∷ month) ∷ day ∷ clock ∷ [])) ≡ some t
  pub trimmed_end : trim_right (y ∷ message) ≡ y ∷ message

header_text-solid :
    (month day clock host tag : Bytes) (y : ℕ) (message : Bytes)
    → trim_right (y ∷ message) ≡ y ∷ message
    → trim_right (header_text month day clock host tag (y ∷ message))
      ≡ header_text month day clock host tag (y ∷ message)
header_text-solid month day clock host tag y message h = trim_right-append month b' ' _ (
    trim_right-append (b' ' ∷ day) b' ' _ (
      trim_right-append (b' ' ∷ clock) b' ' _ (
        trim_right-append (b' ' ∷ host) b' ' _
          (trim_right-append (b' ' ∷ tag) b' ' _ (trim_right-append (b' ' ∷ []) y message h)))))

fields_lem :
    (host : Bytes) (x : ℕ) (app proc message : Bytes) (m : Decoded)
    → has_mark host ≡ false
    → is_hostname host ≡ true
    → has_mark (x ∷ app) ≡ false
    → has_mark proc ≡ false
    → fields (host ∷ bracket_tag (x ∷ app) proc ∷ split message) m
      ≡ record m { host_name = host; app_name = x ∷ app; proc_id = proc; message = message }
unfolding fields with_tag
fields_lem host x app proc message m hm hh ha hp =
    let (z, ws, e, j) = split_cons message in
    rw (e, hm, hh, parse_tag-bracket x app proc ha hp, j) refl

-- A text that starts with no digit has a stamp of the old format.
old_text :
    (l : Layouts) (now : ℤ) (c : ℕ) (s : Bytes) (m : Decoded)
    → is_digit c ≡ false
    → after_priority l now (c ∷ s) m ≡ old_time l now (c ∷ s) (split (c ∷ s)) m
unfolding after_priority
old_text l now c s m h = rw h refl

after_priority-header :
    (l : Layouts) (now t : ℤ) (c : ℕ) (month day clock host : Bytes) (x : ℕ) (app proc : Bytes)
    (y : ℕ) (message : Bytes) (m : Decoded)
    → Proper l t c month day clock host x app proc y message
    → after_priority l now
        (header_text (c ∷ month) day clock host (bracket_tag (x ∷ app) proc) (y ∷ message))
        m
      ≡ record m {
        time_reported = t;
        host_name = host;
        app_name = x ∷ app;
        proc_id = proc;
        message = y ∷ message;
      }
unfolding old_time iso_time timed
after_priority-header l now t c month day clock host x app proc y message m p =
    let tag = bracket_tag (x ∷ app) proc in
    let text = header_text (c ∷ month) day clock host tag (y ∷ message) in
    let rest = host ∷ tag ∷ split (y ∷ message) in
    old_text l now c _ m p.no_digit
    ∙ ap (λ ws. old_time l now text ws m)
        (split-header_text (c ∷ month) day clock host tag (y ∷ message) p.words)
    ∙ ap (λ o. iso_time o now text rest m) p.stamped
    ∙ fields_lem host x app proc (y ∷ message) (record m { time_reported = t }) p.host_unmarked
        p.host_letters p.app_unmarked p.proc_unmarked

-- A message as the syslog daemons write it, `<PRI>Mmm dd hh:mm:ss HOST APP[PROC]: MESSAGE`, is
-- decoded into its priority, time, host, application, process and message, spaces in the message
-- included; the priority has digits, the day no space before it, and the message no space at its end.
pub p3164-message :
    (l : Layouts) (now t : ℤ) (d : ℕ) (ds : Bytes) (c : ℕ) (month day clock host : Bytes) (x : ℕ)
    (app proc : Bytes) (y : ℕ) (message : Bytes)
    → all_digits (d ∷ ds) ≡ true
    → atoi 0 (d ∷ ds) < 2 ^ 63
    → Proper l t c month day clock host x app proc y message
    → p3164 l now (
        b'<'
        ∷ ((d ∷ ds)
            ++ b'>'
              ∷ header_text (c ∷ month) day clock host (bracket_tag (x ∷ app) proc) (y ∷ message)))
      ≡ record (with_priority now (pos (atoi 0 (d ∷ ds)))) {
        time_reported = t;
        host_name = host;
        app_name = x ∷ app;
        proc_id = proc;
        message = y ∷ message;
      }
p3164-message l now t d ds c month day clock host x app proc y message digits small p =
    let tag = bracket_tag (x ∷ app) proc in
    p3164-priority l now d ds c _ digits small p.no_blank
      (header_text-solid (c ∷ month) day clock host tag y message p.trimmed_end)
    ∙ after_priority-header l now t c month day clock host x app proc y message
        (with_priority now (pos (atoi 0 (d ∷ ds)))) p

has_colon-append :
    (p q : Bytes) → has_colon p ≡ false → has_colon q ≡ false → has_colon (p ++ q) ≡ false
has_colon-append [] q h k = k
has_colon-append (c ∷ p) q h k = ground (arith, has_colon-append p q)

-- Where the day has one digit, with a space before it as `time.Stamp` and the encoder write it, the
-- stamp is not read: the decoder takes the whole text after the priority for the message, the time
-- for the time of the call, and sets no host, application or process.
pub p3164-padded :
    (l : Layouts) (now : ℤ) (d : ℕ) (ds : Bytes) (c : ℕ) (month : Bytes) (day y : ℕ) (rest : Bytes)
    → all_digits (d ∷ ds) ≡ true
    → atoi 0 (d ∷ ds) < 2 ^ 63
    → is_digit c ≡ false
    → is_space c ≡ false
    → no_space (c ∷ month) ≡ true
    → has_colon (c ∷ month) ≡ false
    → is_digit day ≡ true
    → trim_right (y ∷ rest) ≡ y ∷ rest
    → let text = (c ∷ month) ++ b' ' ∷ b' ' ∷ day ∷ b' ' ∷ y ∷ rest in
      p3164 l now (b'<' ∷ ((d ∷ ds) ++ b'>' ∷ text))
      ≡ record (with_priority now (pos (atoi 0 (d ∷ ds)))) { time_reported = now; message = text }
unfolding old_time iso_time untimed
p3164-padded l now d ds c month day y rest digits small nd nb word nc one end =
    let tail = b' ' ∷ day ∷ b' ' ∷ y ∷ rest in
    let text = (c ∷ month) ++ b' ' ∷ tail in
    let m = with_priority now (pos (atoi 0 (d ∷ ds))) in
    let day_word : no_space (day ∷ []) ≡ true = ground arith in
    let words : split text ≡ (c ∷ month) ∷ [] ∷ (day ∷ []) ∷ split (y ∷ rest) =
      split-append (c ∷ month) tail word
      ∙ ap (λ ws. (c ∷ month) ∷ [] ∷ ws) (split-append (day ∷ []) (y ∷ rest) day_word) in
    let unread : l.stamp (join ((c ∷ month) ∷ [] ∷ (day ∷ []) ∷ [])) ≡ none =
      l.stamp-clock _ (has_colon-append (c ∷ month) (b' ' ∷ b' ' ∷ day ∷ []) nc (ground arith)) in
    p3164-priority l now d ds c _ digits small nb (
      trim_right-append (c ∷ month) b' ' tail
        (trim_right-append (b' ' ∷ b' ' ∷ day ∷ b' ' ∷ []) y rest end))
    ∙ old_text l now c _ m nd
    ∙ ap (λ ws. old_time l now text ws m) words
    ∙ ap (λ o. iso_time o now text (split (y ∷ rest)) m) unread
