-- ===== src/Upload.antt =====
-- nhpc_qa/api/security/upload_guard.py: the names, the paths and the contents that may be written.
pub mod Jail
use nhpc_parliament_rag_syst.Prelude.{
  ℕ, zero, suc, ◌+◌, ◌-◌, ◌*◌, ◌%◌, Bool, true, false, not, ◌&&◌, ◌||◌, Option, none, some, List,
  [], ◌∷◌, ◌++◌, map, if◌then◌else◌, Text, codes, text_eq, starts_with, has, has_text, replace,
  split, join, strip, strip_by, drop_while, lower, filter, any, all, take, length, ltb, leb, ◌==◌,
}
use nhpc_parliament_rag_syst.OsPath.{AbsPath, dot, dot_dot, below, raw_join}

-- Unicode as Python's `unicodedata` has it: the composed form, and the characters of the categories C.
pub record Unicode : Type 0 where
  pub nfc : Text → Text
  pub is_control : ℕ → Bool

abbrev pub max_component : ℕ
max_component = 120

abbrev pub max_rel_path : ℕ
max_rel_path = 400

-- _WIN_RESERVED
abbrev pub is_digit_19 : ℕ → Bool
is_digit_19 d = leb b'1' d && leb d b'9'

abbrev pub is_device : Text → Bool
is_device (a ∷ b ∷ c ∷ d ∷ []) =
    (text_eq (a ∷ b ∷ c ∷ []) (codes "com") || text_eq (a ∷ b ∷ c ∷ []) (codes "lpt"))
    && is_digit_19 d
is_device n = any (text_eq n) (codes "con" ∷ codes "prn" ∷ codes "aux" ∷ codes "nul" ∷ [])

-- The last dot of a name, with what stands before it and what starts with it.
unfoldable pub last_dot : Text → Option (Text × Text)
last_dot [] = none
last_dot (c ∷ n) = elim (last_dot n) [
  | some (stem, ext) ↦ some (c ∷ stem, ext)
  | none ↦ if c == b'.' then some ([], c ∷ n) else none
]

abbrev pub leading_dots : Text → Text
leading_dots [] = []
leading_dots (c ∷ n) = if c == b'.' then c ∷ leading_dots n else []

-- `os.path.splitext` of a name without a slash: dots at its start belong to no extension.
unfoldable pub splitext : Text → Text × Text
unfolding last_dot drop_while
splitext n = elim (last_dot (drop_while (λ c. c == b'.') n)) [
  | none ↦ (n, [])
  | some (stem, ext) ↦ (leading_dots n ++ stem, ext)
]

-- `stem[:MAX_COMPONENT - len(ext)]`, which a negative end cuts from the other side.
abbrev pub cut_stem : Text → ℕ → Text
cut_stem stem len_ext =
    if leb len_ext max_component
    then take (max_component - len_ext) stem
    else take (length stem - (len_ext - max_component)) stem

abbrev pub cut_component : Text → Text
cut_component n =
    if ltb max_component (length n)
    then cut_stem (splitext n).0 (length (splitext n).1) ++ (splitext n).1
    else n

abbrev pub is_letter : ℕ → Bool
is_letter c = (leb b'A' c && leb c b'Z') || (leb b'a' c && leb c b'z')

-- ^[A-Za-z]:
abbrev pub drop_drive : Text → Text
drop_drive [] = []
drop_drive (c ∷ []) = c ∷ []
drop_drive (c ∷ d ∷ n) = if is_letter c && d == b':' then n else c ∷ d ∷ n

-- [<>:"|?*]
abbrev pub is_forbidden : ℕ → Bool
is_forbidden c = has c (codes "<>:|?*") || c == 34

abbrev pub first_part : List Text → Text
first_part [] = []
first_part (p ∷ ps) = p

module _ (uc : Unicode) where
  -- A name without control characters, separators, drive letter and forbidden characters.
  unfoldable pub scrub : Text → Text
  unfolding strip_by
  scrub n =
      let visible = filter (λ c. not (uc.is_control c)) n in
      let no_separator = replace 92 b'_' (replace b'/' b'_' visible) in
      let storable = map (λ c. if is_forbidden c then b'_' else c) (drop_drive no_separator) in
      strip_by (λ c. c == b'.') (strip storable)

  -- `none` is Rejected.
  unfoldable pub accept_component : Text → Option Text
  unfolding split
  accept_component [] = none
  accept_component (c ∷ n) =
      if is_device (lower (first_part (split b'.' (c ∷ n))))
      then none
      else some (cut_component (c ∷ n))

  unfoldable pub sanitize_component : Text → Option Text
  unfolding scrub accept_component
  sanitize_component [] = none
  sanitize_component (c ∷ name) =
      let n = uc.nfc (c ∷ name) in if has 0 n then none else accept_component (scrub n)

  unfoldable pub sanitize_parts : List Text → Option (List Text)
  unfolding sanitize_component
  sanitize_parts [] = some []
  sanitize_parts (p ∷ ps) =
      let rest = sanitize_parts ps in
      let seg = strip p in
      if text_eq seg [] || text_eq seg dot
      then rest
      else if text_eq seg dot_dot
      then none
      else elim (sanitize_component seg) [
        | none ↦ none
        | some n ↦ elim rest [ none ↦ none | some ns ↦ some (n ∷ ns) ]
      ]

  abbrev pub joined : Option (List Text) → Option Text
  joined none = none
  joined (some []) = none
  joined (some (p ∷ ps)) =
      if ltb max_rel_path (length (join b'/' (p ∷ ps))) then none else some (join b'/' (p ∷ ps))

  unfoldable pub sanitize_relpath : Text → Option Text
  unfolding sanitize_parts join
  sanitize_relpath [] = none
  sanitize_relpath (c ∷ rel) = joined (sanitize_parts (split b'/' (replace 92 b'/' (c ∷ rel))))

-- `realpath` is what the file system tells of a path's components as they are written, with "." and
-- ".." among them; `none` is Rejected.
unfoldable pub jail : (AbsPath → AbsPath) → AbsPath → Text → Option AbsPath
unfolding below raw_join
jail realpath root rel =
    let root_real = realpath root in
    let target = realpath (raw_join root_real rel) in
    if not (below root_real target)
    then none
    else if below target root_real
    then none
    else some target

-- What the check of contents asks of a file: its bytes, the names in it if it is a zip container, and
-- whether some bytes decode in UTF-8, UTF-16 or CP1252.
pub record Contents : Type 0 where
  pub bytes : List ℕ
  pub zip_names : Option (List Text)
  pub decodes : List ℕ → Bool

abbrev pub ole_header : List ℕ
ole_header = 0xd0 ∷ 0xcf ∷ 0x11 ∷ 0xe0 ∷ 0xa1 ∷ 0xb1 ∷ 0x1a ∷ 0xe1 ∷ []

abbrev pub office_parts : Text → Option (List Text) → Bool
office_parts want none = false
office_parts want (some names) =
    any (starts_with want) names && any (text_eq (codes "[Content_Types].xml")) names

-- True where the code returns and false where it raises Rejected. `ext` is the extension in lower case.
unfoldable pub sniff : Contents → Text → Bool
sniff f ext =
    let zip_header = text_eq (take 4 f.bytes) (codes "PK" ++ 3 ∷ 4 ∷ []) in
    let text = take 65536 f.bytes in
    not (text_eq f.bytes [])
    && (if text_eq ext (codes ".pdf")
        then has_text (codes "%PDF-") (take 512 (take 1024 f.bytes))
        else if text_eq ext (codes ".docx")
        then zip_header && office_parts (codes "word/") f.zip_names
        else if text_eq ext (codes ".xlsx")
        then zip_header && office_parts (codes "xl/") f.zip_names
        else if text_eq ext (codes ".doc") || text_eq ext (codes ".xls")
        then text_eq (take 8 f.bytes) ole_header
        else if text_eq ext (codes ".txt")
        then not (has 0 text) && f.decodes text
        else false)

unfoldable pub check_extension : List Text → Text → Option Text
unfolding splitext
check_extension allowed filename =
    let ext = lower (splitext filename).1 in
    if text_eq ext [] then none else if any (text_eq ext) allowed then some ext else none
