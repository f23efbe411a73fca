-- ===== src/Profiles/Pdf.antt =====
-- The PDF helpers of backend/app/api/profile.py.
use resume_helper.Base.{
  ℕ, ◌+◌, ◌-◌, Bool, false, ◌&&◌, ◌||◌, not, Option, none, some, List, [], ◌∷◌, ◌++◌, map, keep,
  drop, take, length, Text, text_of, text_eq, nonempty, strip, is_space, ◌==◌, leb, ltb, get_or,
  if◌then◌else◌,
}

-- `pypdf` and `unicodedata`: the texts of a document's pages, `none` where reading it raises, and
-- `normalize("NFKC", text)`.
pub record PdfReader : Type 0 where
  pub pages : List ℕ → Option (List (Option Text))
  pub nfkc : Text → Text

-- `separator.join(parts)`
unfoldable pub join : Text → List Text → Text
join separator [] = []
join separator (part ∷ []) = part
join separator (part ∷ next ∷ parts) = part ++ separator ++ join separator (next ∷ parts)

abbrev pub push_char : ℕ → List Text → List Text
push_char c [] = (c ∷ []) ∷ []
push_char c (line ∷ lines) = (c ∷ line) ∷ lines

abbrev pub is_line_break : ℕ → Bool
is_line_break c =
    (leb 10 c && leb c 13) || (leb 28 c && leb c 30) || c == 0x85 || c == 0x2028 || c == 0x2029

abbrev pub starts_with : ℕ → Text → Bool
starts_with c [] = false
starts_with c (d ∷ s) = c == d

-- `text.splitlines()`
unfoldable pub splitlines : Text → List Text
splitlines [] = []
splitlines (c ∷ s) =
    let rest = splitlines s in
    if c == 13 && starts_with 10 s
    then rest
    else if is_line_break c
    then [] ∷ rest
    else push_char c rest

abbrev pub starts_word : Text → Bool
starts_word [] = false
starts_word (c ∷ s) = not (is_space c)

-- `line.split()`
unfoldable pub split : Text → List Text
unfolding is_space
split [] = []
split (c ∷ s) =
    let rest = split s in
    if is_space c then rest else if starts_word s then push_char c rest else (c ∷ []) ∷ rest

-- `text.encode("utf-8", "ignore")` drops the surrogates.
abbrev pub is_encodable : ℕ → Bool
is_encodable c = ltb c 0xd800 || ltb 0xdfff c

-- `none` is an exception, also the `ValueError` of a document without text.
unfoldable pub extract_pdf_text : PdfReader → List ℕ → Option Text
unfolding join splitlines split strip
extract_pdf_text reader pdf_bytes = elim (reader.pages pdf_bytes) [
  | none ↦ none
  | some pages ↦
      let text = strip (join (text_of "\n") (map (λ page. get_or page []) pages)) in
      if not (nonempty text)
      then none
      else let readable = keep is_encodable (keep (λ c. not (c == 0)) (reader.nfkc text)) in
        let lines = map (λ line. join (text_of " ") (split line)) (splitlines readable) in
        some (join (text_of "\n") (keep nonempty lines))
]

-- `file.filename` and what `file.file` holds.
pub record UploadFile : Type 0 where
  pub filename : Option Text
  pub contents : List ℕ

-- No character but an ASCII letter lowers to a letter of ".pdf".
abbrev pub lower_ascii : ℕ → ℕ
lower_ascii c = if leb 65 c && leb c 90 then c + 32 else c

unfoldable pub ends_with : Text → Text → Bool
unfolding text_eq
ends_with suffix s = text_eq (drop (length s - length suffix) s) suffix

-- `file.filename and file.filename.lower().endswith(".pdf")`
unfoldable pub is_pdf_name : Option Text → Bool
unfolding ends_with
is_pdf_name none = false
is_pdf_name (some name) = ends_with (text_of ".pdf") (map lower_ascii name)

-- `none` is the `UploadTooLargeError`.
unfoldable pub read_pdf_upload : ℕ → UploadFile → Option (List ℕ)
read_pdf_upload max_bytes file =
    let pdf_bytes = take (max_bytes + 1) file.contents in
    if ltb max_bytes (length pdf_bytes) then none else some pdf_bytes
