-- ===== src/Ard/Report.antt =====
-- internal/ard/verify.go: how checks are made and rolled up to a verdict, and the checks on the
-- transport; internal/httpx/httpx.go: what counts as JSON. `SpecRef`, the same for every check, is
-- left out.
use ardvark.Prelude.{
  ℕ, ltb, leb, ◌+◌, ◌/◌, ◌%◌, Bool, true, false, ◌&&◌, ◌||◌, not, List, [], ◌∷◌, ◌++◌, Text, codes,
  any, length, contains, is_empty, ◌==◌, Unicode, if◌then◌else◌,
}
use ardvark.Crawler.Digits.{decimal}
use ardvark.Ard.Document.{
  Check, Severity, error, warning, ℤ, pos, negsuc, subject_catalog, entry_index_none,
}

abbrev pub hex_digit : ℕ → ℕ
hex_digit n = if ltb n 10 then 48 + n else 87 + n

abbrev pub escaped : ℕ → Text
escaped b =
    if (b == 34) || (b == 92)
    then 92 ∷ b ∷ []
    else if b == 10
    then codes "\\n"
    else if b == 9
    then codes "\\t"
    else if b == 13
    then codes "\\r"
    else if ltb b 32 || (b == 127)
    then codes "\\x" ++ hex_digit (b / 16) ∷ hex_digit (b % 16) ∷ []
    else b ∷ []

abbrev pub escape_all : Text → Text
escape_all [] = []
escape_all (b ∷ s) = escaped b ++ escape_all s

-- `%q`, for texts of ASCII without the bytes 7, 8, 11 and 12, and of printable letters.
abbrev pub quote : Text → Text
quote s = 34 ∷ escape_all s ++ 34 ∷ []

abbrev pub new_check : Text → Severity → Text → Bool → Text → Text → Check
new_check id severity subject passed pass_msg fail_msg = record {
  check_id = id;
  severity = severity;
  passed = passed;
  message = if passed then pass_msg else fail_msg;
  subject = subject;
  entry_index = entry_index_none;
}

pub data Verdict : Type 0 where
  valid valid_with_warnings invalid : Verdict

-- The loop of `rollUp`, with `warnFailed`.
unfoldable pub roll_loop : Bool → List Check → Verdict
roll_loop warn_failed [] = if warn_failed then valid_with_warnings else valid
roll_loop warn_failed (check ∷ checks) = elim check.passed [
  | true ↦ roll_loop warn_failed checks
  | false ↦ elim check.severity [ error ↦ invalid | warning ↦ roll_loop true checks ]
]

unfoldable pub roll_up : List Check → Verdict
unfolding roll_loop
roll_up = roll_loop false

pub record Report : Type 0 where
  pub checks : List Check
  pub verdict : Verdict

unfoldable pub merge_checks : Report → List Check → Report
unfolding roll_up
merge_checks r extra = record { checks = r.checks ++ extra; verdict = roll_up (r.checks ++ extra) }

abbrev pub is_error : Severity → Bool
is_error error = true
is_error warning = false

abbrev pub failed_error : Check → Bool
failed_error c = not c.passed && is_error c.severity

-- `schemaFailed`.
unfoldable pub schema_failed : List Check → Bool
unfolding any
schema_failed checks = any failed_error checks

-- `httpx.IsJSONContentType`.
unfoldable pub is_json_content_type : Unicode → Text → Bool
unfolding contains
is_json_content_type unicode content_type = contains (unicode.to_lower content_type) (codes "json")

abbrev pub is_blank : ℕ → Bool
is_blank b = (b == 32) || (b == 9) || (b == 13) || (b == 10)

-- Whether `bytes.TrimLeft(body, " \t\r\n")` starts with a brace or a bracket.
unfoldable pub starts_json : Text → Bool
starts_json [] = false
starts_json (b ∷ s) =
    let rest = starts_json s in if is_blank b then rest else (b == 123) || (b == 91)

-- `httpx.LooksLikeJSON`.
unfoldable pub looks_like_json : Unicode → Text → Text → Bool
unfolding is_json_content_type starts_json
looks_like_json unicode content_type body =
    (not (is_empty content_type) && is_json_content_type unicode content_type) || starts_json body

-- `utf8.Valid`, with the second byte in its range, and then a number of continuation bytes.
abbrev pub in_range : ℕ → ℕ → ℕ → Bool
in_range lo b hi = leb lo b && leb b hi

-- The ranges that the bytes still to come of a rune have to be in.
abbrev pub continuation : ℕ × ℕ
continuation = (128, 191)

abbrev pub lead : ℕ → List (ℕ × ℕ)
lead b =
    if ltb b 224
    then continuation ∷ []
    else if ltb b 240
    then (if b == 224 then (160, 191) else if b == 237 then (128, 159) else continuation)
      ∷ continuation
      ∷ []
    else (if b == 240 then (144, 191) else if b == 244 then (128, 143) else continuation)
      ∷ continuation
      ∷ continuation
      ∷ []

unfoldable pub utf8_from : List (ℕ × ℕ) → Text → Bool
utf8_from [] [] = true
utf8_from (range ∷ ranges) [] = false
utf8_from [] (b ∷ s) = elim (ltb b 128) [
  | true ↦ utf8_from [] s
  | false ↦ in_range 194 b 244 && utf8_from (lead b) s
]
utf8_from ((lo, hi) ∷ ranges) (b ∷ s) = in_range lo b hi && utf8_from ranges s

unfoldable pub utf8_valid : Text → Bool
unfolding utf8_from
utf8_valid = utf8_from []

abbrev pub size_ok : ℕ → ℤ → Bool
size_ok size (negsuc n) = true
size_ok size (pos n) = (n == 0) || leb size n

abbrev pub int_text : ℤ → Text
int_text (pos n) = decimal n
int_text (negsuc n) = 45 ∷ decimal (1 + n)

unfoldable pub transport_checks : Unicode → Text → Text → ℤ → List Check
unfolding is_json_content_type utf8_valid decimal
transport_checks unicode content_type body max_body_bytes =
    new_check (codes "transport.content_type") warning subject_catalog
      (is_json_content_type unicode content_type)
      (codes "Content-Type " ++ quote content_type ++ codes " indicates JSON")
      (codes "Content-Type " ++ quote content_type ++ codes " does not indicate JSON")
    ∷ new_check (codes "transport.size") warning subject_catalog
        (size_ok (length body) max_body_bytes)
        (codes "body size "
          ++ decimal (length body)
          ++ codes " bytes is within the "
          ++ int_text max_body_bytes
          ++ codes " byte cap")
        (codes "body size "
          ++ decimal (length body)
          ++ codes " bytes exceeds the "
          ++ int_text max_body_bytes
          ++ codes " byte cap")
    ∷ new_check (codes "transport.utf8") warning subject_catalog (utf8_valid body)
        (codes "body is valid UTF-8") (codes "body is not valid UTF-8")
    ∷ []
