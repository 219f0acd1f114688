-- ===== src/ZoneFile/Lines.antt =====
-- The lines of a zone file, and what tasks.py takes from outside to write them.
use hexdns.Common.{
  ℕ, ◌+◌, ◌/◌, ◌%◌, Bool, true, ltb, leb, ◌==◌, ◌&&◌, ◌||◌, if◌then◌else◌, List, [], ◌∷◌, ◌++◌,
  Bytes, codes, bytes_eq, Option, none, some, ◌↔◌,
}
use mathlib.Core.List.{Memᴰ, reverse}
use hexdns.Dns.External.{External}
use hexdns.Dns.IntText.{trim_start}
use hexdns.Dns.Store.{Row}
use hexdns.ZoneFile.Strings.{show, encode_str}
use hexdns.ZoneFile.Keys.{PublicNumbers}

-- `str` of a label and of a key of a row, `idna.encode` (`none` is an `IDNAError`), Base64, the
-- clock, the key of the settings, and the elements of a `set` in the order in which it is gone
-- through.
pub record Texts ⦃E : External⦄ : Type 0 where
  pub str_label : E.Label → Bytes
  pub str_id : Bytes → ℕ → Bytes
  pub idna_encode : Bytes → Option Bytes
  pub b64encode : Bytes → Bytes
  pub now : ℕ
  pub pubkey : PublicNumbers
  pub elements : List ℕ → List ℕ
  pub mem-elements : (n : ℕ) (added : List ℕ) → Memᴰ n (elements added) ↔ Memᴰ n added

unfoldable pub concat : List Bytes → Bytes
concat [] = []
concat (x ∷ xs) = x ++ concat xs

abbrev pub space : Bytes
space = codes " "

abbrev pub newline : Bytes
newline = 10 ∷ []

-- f"{record_name} {ttl} IN {rtype} {rdata}\n"
unfoldable pub rr_line : Bytes → ℕ → Bytes → Bytes → Bytes
unfolding show
rr_line name ttl rtype rdata =
    name ++ (space ++ (show ttl ++ (codes " IN " ++ (rtype ++ (space ++ (rdata ++ newline))))))

unfoldable pub quoted : Bytes → Bytes
unfolding encode_str
quoted text = codes "\"" ++ encode_str text ++ codes "\""

-- Words with a space between each two.
unfoldable pub words : List Bytes → Bytes
words [] = []
words (w ∷ []) = w
words (w ∷ v ∷ ws) = w ++ (space ++ words (v ∷ ws))

unfoldable pub hex_char : ℕ → ℕ
hex_char n = if ltb n 10 then 48 + n else 87 + n

-- `bytes.hex` and `hexdigest`
unfoldable pub hex : Bytes → Bytes
unfolding hex_char
hex [] = []
hex (b ∷ bs) = hex_char (b / 16) ∷ hex_char (b % 16) ∷ hex bs

-- `str.strip()`, of ASCII space.
unfoldable pub strip : Bytes → Bytes
unfolding trim_start
strip text = reverse (trim_start (reverse (trim_start text)))

unfoldable pub all_chars : (ℕ → Bool) → Bytes → Bool
all_chars p [] = true
all_chars p (c ∷ cs) = p c && all_chars p cs

-- `string.ascii_letters + string.digits + "-_ *."`
abbrev pub is_allowed : ℕ → Bool
is_allowed c =
    (leb b'a' c && leb c b'z')
    || (leb b'A' c && leb c b'Z')
    || (leb b'0' c && leb c b'9')
    || c == b'-'
    || c == b'_'
    || c == 32
    || c == b'*'
    || c == b'.'

-- `ord(c) < 127 and c in string.printable`
abbrev pub is_printable : ℕ → Bool
is_printable c = (leb 32 c && ltb c 127) || (leb 9 c && leb c 13)

-- `str.replace(" ", "\\040")`
unfoldable pub replace_spaces : Bytes → Bytes
replace_spaces [] = []
replace_spaces (c ∷ cs) =
    let rest = replace_spaces cs in if c == 32 then codes "\\040" ++ rest else c ∷ rest

-- The record's name is the zone's: `record_name.strip()` is "@" or empty.
unfoldable pub is_apex : Bytes → Bool
unfolding strip bytes_eq
is_apex record_name = bytes_eq (strip record_name) (codes "@") || bytes_eq (strip record_name) []

module _ ⦃E : External⦄ ⦃T : Texts⦄ where
  -- `DNSZoneRecord.idna_label`; `none` is `None`.
  unfoldable pub idna_label : Bytes → Option Bytes
  unfolding is_apex all_chars replace_spaces
  idna_label record_name =
      let encoded = T.idna_encode record_name in
      if is_apex record_name then some (codes "@") else elim encoded [
        | some label ↦ some label
        | none ↦
            if all_chars is_allowed record_name then some (replace_spaces record_name) else none
      ]

  -- f"; {kind} record {record.id}\n"
  unfoldable pub comment : Bytes → Bytes → ℕ → Bytes
  comment kind prefix pk = codes "; " ++ (kind ++ (space ++ (T.str_id prefix pk ++ newline)))

  -- `if record_name: …`
  unfoldable pub with_name : Option Bytes → (Bytes → Bytes) → Bytes
  with_name none write = []
  with_name (some []) write = []
  with_name (some (c ∷ cs)) write = write (c ∷ cs)

  -- `for record in zone.…_set.all(): …`
  unfoldable pub section : {D : Type 0} → (Row D → Bytes) → List (Row D) → Bytes
  section write [] = []
  section write (r ∷ rs) = write r ++ section write rs
