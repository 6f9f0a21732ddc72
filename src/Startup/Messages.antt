-- ===== src/Startup/Messages.antt =====
-- main.go: the width of log messages (formatMsgFixed) and the level of the log. A Go string is its bytes
-- here, since the slice of a long message may cut a character.
use native.Mathlib.Nat.{le_refl}
use mathlib.Core.List.{append-nil}
use bundle_broadcaster.Common.{
  ℕ, ◌-◌, ◌≡◌, ◌∙◌, ap, sym, arith, List, [], ◌++◌, Option, none, some, length, take, replicate,
  ltb, ltb→lt, ◌≤◌, if◌then◌else◌, length-take, length-replicate, length-append, take-append_left,
  take-append_pad, String, ◌==◌, Bool-cases, inl, inr, Bool, not,
}

abbrev pub msg_width : ℕ
msg_width = 35

abbrev space : ℕ
space = 32

-- `i.(string)`, with "" where the message is no string.
abbrev pub or_empty_text : Option (List ℕ) → List ℕ
or_empty_text none = []
or_empty_text (some s) = s

unfoldable pub format_msg_fixed : Option (List ℕ) → List ℕ
format_msg_fixed i =
    let s = or_empty_text i in
    if ltb msg_width (length s)
    then take msg_width s
    else if ltb (length s) msg_width
    then s ++ replicate (msg_width - length s) space
    else s

-- A text and spaces, cut at a width, on the three ways that its length may compare.
module _ (s : List ℕ) (width : ℕ) where
  abbrev cut : List ℕ
  cut = take width (s ++ replicate width space)

  length-cut : length cut ≡ width
  length-cut =
      length-take (s ++ replicate width space) width
        (omega (arith, length-append s (replicate width space), length-replicate {0} width space))

  cut-short : length s ≤ width → cut ≡ s ++ replicate (width - length s) space
  cut-short h = take-append_pad s width width space h (le_refl width)

  cut-long : width ≤ length s → cut ≡ take width s
  cut-long h = take-append_left s (replicate width space) width h

  cut-exact : length s ≡ width → cut ≡ s
  cut-exact h =
      let none_left : width - length s ≡ 0 = omega (arith, h) in
      cut-short (omega (arith, h)) ∙ rw none_left (append-nil s)

  cut-cases :
      (if ltb width (length s)
        then take width s
        else if ltb (length s) width
        then s ++ replicate (width - length s) space
        else s)
      ≡ cut
  cut-cases = elim (Bool-cases (ltb width (length s))) [
    | inl long ↦ rw long (sym (cut-long (omega (arith, ltb→lt width (length s) long))))
    | inr fits ↦ elim (Bool-cases (ltb (length s) width)) [
      | inl short ↦
          rw (fits, short) (sym (cut-short (omega (arith, ltb→lt (length s) width short))))
      | inr exact ↦ rw (fits, exact) (sym (cut-exact (ground (arith, fits, exact))))
    ]
  ]

-- Every message of the console takes up 35 bytes: they are the first of the message, or of nothing if
-- it is no string, followed by spaces.
pub format_msg_fixed-take :
    (i : Option (List ℕ))
    → (length (format_msg_fixed i) ≡ msg_width)
      × (format_msg_fixed i ≡ take msg_width (or_empty_text i ++ replicate msg_width space))
unfolding format_msg_fixed
format_msg_fixed-take i =
    let same = cut-cases (or_empty_text i) msg_width in
    (ap (λ l. length l) same ∙ length-cut (or_empty_text i) msg_width, same)

-- zerolog's levels, as main sets them.
pub data Level : Type 0 where
  debug trace warn error info : Level

-- `lower` is strings.ToLower of the configured level.
unfoldable pub parse_level : String → Level
parse_level lower =
    if lower == "debug"
    then debug
    else if lower == "trace"
    then trace
    else if lower == "warn"
    then warn
    else if lower == "error"
    then error
    else info

-- The writer of the log: JSON lines, or a console, in colour if it is a terminal.
pub data LogWriter : Type 0 where
  json_lines : LogWriter
  console : Bool → LogWriter

unfoldable pub choose_writer : String → Bool → LogWriter
choose_writer log_format is_terminal =
    if log_format == "json" then json_lines else console (not is_terminal)
