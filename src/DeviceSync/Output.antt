-- ===== src/DeviceSync/Output.antt =====
-- The parsed output that the synchronisation of a device reads, and the searches in the raw text:
-- SyncService._parse_serial_from_text and _parse_image_from_text (network/services/sync_service.py).
-- The columns are those of the TextFSM templates in network/parsers/textfsm.
use zas.Prelude.{
  ℕ, Bool, false, not, ◌&&◌, ◌||◌, Option, none, some, List, [], ◌∷◌, ◌==◌, leb, drop,
  if◌then◌else◌, is_empty,
}
use zas.Text.{Text, codes, strip, starts_with, is_space, lstrip_by, is_digit}
use zas.Sync.{Entry, or_text}

-- A column is a text, or a list of texts where the template says `List`.
pub data Column : Type 0 where
  text : Text → Column
  texts : List Text → Column

pub record VersionEntry : Type 0 where
  pub serial : Option Column
  pub serial_number : Option Column
  pub version : Option Text
  pub running_image : Option Text
  pub os : Option Text
  pub uptime : Option Text
  pub uptime_parts : List (Text × Text)
  pub hardware : Option Column
  pub model : Option Column
  pub platform : Option Column
  pub chassis : Option Column

-- An entry of the inventory, with its part number.
pub record Part : Type 0 where
  pub entry : Entry
  pub pid : Option Text

-- `str(entry.get("pid") or entry.get("PID") or "").strip()`; the headers are in lower case
unfoldable pub pid_of : Part → Text
unfolding or_text
pid_of p = strip (or_text p.pid [])

is_filled : Column → Bool
is_filled (text t) = not (is_empty t)
is_filled (texts ts) = not (is_empty ts)

first_text : List Text → Text
first_text [] = []
first_text (t ∷ ts) = t

column_text : Column → Text
unfolding first_text
column_text (text t) = t
column_text (texts ts) = first_text ts

-- `a or b` of two columns, as a text; the first of a list stands for it
unfoldable pub serial_text : Option Column → Option Column → Text
unfolding is_filled column_text
serial_text none none = []
serial_text none (some b) = column_text b
serial_text (some a) none = column_text a
serial_text (some a) (some b) = if is_filled a then column_text a else column_text b

-- the characters at the front that `p` holds of
take_while : (ℕ → Bool) → Text → Text
take_while p [] = []
take_while p (c ∷ s) = let rest = take_while p s in if p c then c ∷ rest else []

-- `[A-Z0-9\-]`
is_serial_char : ℕ → Bool
is_serial_char c = leb b'A' c && leb c b'Z' || (is_digit c || c == b'-')

without_mark : Text → Text
without_mark [] = []
without_mark (c ∷ s) = if c == b':' || c == b'#' then s else c ∷ s

names_serial : Text → Bool
names_serial s =
    starts_with s (codes "Serial Number")
    || (starts_with s (codes "serial number")
        || (starts_with s (codes "Serial number") || starts_with s (codes "serial Number")))

-- what stands behind the words
serial_behind : Text → Text
unfolding take_while is_serial_char without_mark
serial_behind s =
    take_while is_serial_char (lstrip_by is_space (without_mark (lstrip_by is_space (drop 13 s))))

-- _parse_serial_from_text
unfoldable pub parse_serial_from_text : Text → Text
unfolding names_serial serial_behind
parse_serial_from_text [] = []
parse_serial_from_text (c ∷ s) =
    let rest = parse_serial_from_text s in
    let serial = serial_behind (c ∷ s) in
    if names_serial (c ∷ s) && not (is_empty serial) then serial else rest

-- `\w` in ASCII
is_word_char : ℕ → Bool
is_word_char c = leb b'A' c && leb c b'Z' || (leb b'a' c && leb c b'z' || (is_digit c || c == b'_'))

-- `[0-9A-Za-z().-]`
is_image_char : ℕ → Bool
unfolding is_word_char
is_image_char c =
    is_word_char c && not (c == b'_') || (c == b'(' || (c == b')' || (c == b'.' || c == b'-')))

-- what stands behind the white space that follows the word, if there is some
image_behind : Text → Text
unfolding take_while is_image_char
image_behind [] = []
image_behind (c ∷ s) = if is_space c then take_while is_image_char (lstrip_by is_space s) else []

-- the search for the word, where `inside` says that a character of a word stands before the text
image_from : Bool → Text → Text
unfolding is_word_char image_behind
image_from inside [] = []
image_from inside (c ∷ s) =
    let rest = image_from (is_word_char c) s in
    let image = image_behind (drop 7 (c ∷ s)) in
    if not inside && (starts_with (c ∷ s) (codes "Version") && not (is_empty image))
    then image
    else rest

-- _parse_image_from_text; no match is the empty text
unfoldable pub parse_image_from_text : Text → Text
unfolding image_from
parse_image_from_text raw = image_from false raw
