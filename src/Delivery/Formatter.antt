-- ===== src/Delivery/Formatter.antt =====
-- backend/delivery/formatters.py: the text that is sent, and its fingerprint. Python's table of
-- white space and the digest of the serialised message (`json.dumps` and `hashlib.sha256`) are
-- parameters.
use line_message_playground.Prelude.{
  ℕ, ◌+◌, Bool, true, ◌&&◌, Option, none, some, [], ◌∷◌, ◌++◌, leb, ltb, if◌then◌else◌, Result, ok,
  err,
}
use line_message_playground.Prelude.Text.{Text, codes}
use line_message_playground.Delivery.Types.{
  Digest, MessageSnapshot, Raised, message_blank_subject, message_blank_body, message_too_long,
  message_invalid_unicode,
}

abbrev pub max_utf16_code_units : ℕ
max_utf16_code_units = 5000

-- A code point that UTF-16 cannot encode, which raises `UnicodeEncodeError`.
abbrev pub is_surrogate : ℕ → Bool
is_surrogate c = leb 55296 c && leb c 57343

-- `len(text.encode("utf-16-le")) // 2`, and `none` where the encoding raises.
unfoldable pub count_utf16_code_units : Text → Option ℕ
count_utf16_code_units [] = some 0
count_utf16_code_units (c ∷ s) =
    let rest = count_utf16_code_units s in
    if is_surrogate c
    then none
    else elim rest [ none ↦ none | some n ↦ some ((if leb 65536 c then 2 else 1) + n) ]

-- `f"【{subject}】\n\n{body}"`
unfoldable pub formatted : Text → Text → Text
formatted subject body = codes "【" ++ (subject ++ (codes "】\n\n" ++ body))

module _ (is_space : ℕ → Bool) (message_digest : Text → Text → Text → Digest) where
  -- `not text.strip()`
  unfoldable pub is_blank : Text → Bool
  is_blank [] = true
  is_blank (c ∷ s) = is_space c && is_blank s

  unfoldable pub format_message : Text → Text → Result Raised MessageSnapshot
  unfolding is_blank count_utf16_code_units formatted
  format_message subject body =
      if is_blank subject
      then err message_blank_subject
      else if is_blank body
      then err message_blank_body
      else elim (count_utf16_code_units (formatted subject body)) [
        | none ↦ err message_invalid_unicode
        | some n ↦
            if ltb max_utf16_code_units n
            then err message_too_long
            else ok (record {
              subject = subject;
              body = body;
              formatted_text = formatted subject body;
              fingerprint = message_digest subject body (formatted subject body);
            })
      ]
