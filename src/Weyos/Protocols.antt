-- ===== src/Weyos/Protocols.antt =====
-- weyos/weyos.go: the names of protocols, and the texts of a connection's details. weyos/v1 has
-- the same `parserProtocol`. A line is the list of the runes of a text in UTF-8.
use kit_go.Common.{
  ℕ, ◌<◌, ◌^◌, ◌==◌, ◌≡◌, refl, ap, ◌∙◌, Bool, true, false, Option, none, some, List, [], ◌∷◌, ◌++◌,
  map, if◌then◌else◌, is_empty, All, Str, ℤ, pos, int_eq, itoa,
}
use kit_go.Common.Fields.{
  fields, atoi, Word, fields-Word, fields_last, Word-itoa, itoa-filled, atoi-itoa,
}

-- The map from numbers to names, as a function.
abbrev pub ProtocolMap : Type 0
ProtocolMap = ℤ → Option Str

abbrev pub store : Option ℤ → Str → ProtocolMap → ProtocolMap
store none name t = t
store (some i) name t = λ j. if int_eq i j then some name else t j

abbrev store_fields : List Str → ProtocolMap → ProtocolMap
store_fields (name ∷ number ∷ _ ∷ _) t = store (atoi number) name t
store_fields _ t = t

abbrev is_comment : Str → Bool
is_comment [] = true
is_comment (c ∷ _) = c == b'#'

abbrev store_line : Bool → List Str → ProtocolMap → ProtocolMap
store_line true words t = t
store_line false words t = store_fields words t

unfoldable pub parser_protocol : List Str → ProtocolMap → ProtocolMap
unfolding fields
parser_protocol [] t = t
parser_protocol (line ∷ lines) t =
    parser_protocol lines (store_line (is_comment line) (fields line) t)

-- A line of the file: one that is passed over, or a name, a number and an alias.
pub data Line : Type 0 where
  comment : Str → Line
  blank : Line
  entry : Str → ℕ → Str → Line

abbrev pub line_text : Line → Str
line_text (comment s) = b'#' ∷ s
line_text blank = []
line_text (entry name n alias) = name ++ (b' ' ∷ (itoa n ++ (b' ' ∷ alias)))

abbrev pub IsLine : Line → Type 0
IsLine (comment _) = Unit
IsLine blank = Unit
IsLine (entry name n alias) =
    Word name × (is_comment name ≡ false) × Word alias × (is_empty alias ≡ false) × (n < 2 ^ 63)

abbrev pub declared : List Line → ProtocolMap → ProtocolMap
declared [] t = t
declared (entry name n _ ∷ lines) t = declared lines (store (some (pos n)) name t)
declared (comment _ ∷ lines) t = declared lines t
declared (blank ∷ lines) t = declared lines t

fields-entry :
    (name : Str) (n : ℕ) (alias : Str)
    → IsLine (entry name n alias)
    → fields (line_text (entry name n alias)) ≡ name ∷ itoa n ∷ alias ∷ []
fields-entry name n alias h =
    rw (fields-Word name (itoa n ++ (b' ' ∷ alias)) h.0 (filled name h.1)) (
      ap (λ r. name ∷ r)
        (rw (fields-Word (itoa n) alias (Word-itoa n) (itoa-filled n))
          (ap (λ r. itoa n ∷ r) (fields_last alias h.2 h.3))))
  where
    filled : (s : Str) → is_comment s ≡ false → is_empty s ≡ false
    filled [] e = cc
    filled (_ ∷ _) e = refl

comment-entry : (name s : Str) → is_comment name ≡ false → is_comment (name ++ s) ≡ false
comment-entry [] s h = cc
comment-entry (c ∷ name) s h = h

store_entry :
    (b : Bool) (words : List Str) (name : Str) (n : ℕ) (alias : Str) (t : ProtocolMap)
    → b ≡ false
    → words ≡ name ∷ itoa n ∷ alias ∷ []
    → n < 2 ^ 63
    → store_line b words t ≡ store (some (pos n)) name t
store_entry b words name n alias t e w h = rw (e, w, atoi-itoa n h) refl

-- A protocols file in which every line is a comment, is empty, or has a name, a number below
-- 2 ^ 63 and one alias with a single space between them and none elsewhere, the name and the alias
-- without white runes, gives each number the name of the last line that has it, and leaves every
-- other number as it was.
pub parser_protocol_lem :
    (lines : List Line) (t : ProtocolMap)
    → All IsLine lines
    → parser_protocol (map line_text lines) t ≡ declared lines t
unfolding parser_protocol
parser_protocol_lem [] t h = refl
parser_protocol_lem (comment s ∷ lines) t h = parser_protocol_lem lines t h.1
parser_protocol_lem (blank ∷ lines) t h = parser_protocol_lem lines t h.1
parser_protocol_lem (entry name n alias ∷ lines) t h =
    ap (parser_protocol (map line_text lines)) (
      store_entry (is_comment (line_text (entry name n alias)))
        (fields (line_text (entry name n alias))) name n alias t
        (comment-entry name (b' ' ∷ (itoa n ++ (b' ' ∷ alias))) h.0.1)
        (fields-entry name n alias h.0) h.0.4)
    ∙ parser_protocol_lem lines (store (some (pos n)) name t) h.1
