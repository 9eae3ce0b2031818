-- ===== src/Classify/Http.antt =====
-- src/classify.rs: the hint on an http request: `http`, `header`.
use kirb_la_snoop.Base.{
  ℕ, Bool, ◌&&◌, Option, none, some, List, [], ◌∷◌, ◌++◌, Bytes, Text, take, drop, get_elem?, ◌==◌,
  if◌then◌else◌, ◌>>=◌, ◌>>◌, guard, is_some, codes,
}
use kirb_la_snoop.Base.Strings.{is_whitespace, to_ascii_lowercase, text_eq, trim, split_once}
use kirb_la_snoop.Base.Lossy.{from_utf8_lossy, from_utf8}
use kirb_la_snoop.Profile.Needle.{starts_with, find}
use mathlib.Core.Option

-- `METHODS`
abbrev pub methods : List Text
methods =
    codes "GET"
    ∷ codes "POST"
    ∷ codes "PUT"
    ∷ codes "HEAD"
    ∷ codes "DELETE"
    ∷ codes "OPTIONS"
    ∷ codes "PATCH"
    ∷ codes "TRACE"
    ∷ codes "CONNECT"
    ∷ []

-- Whether the line starts with a method and a space.
abbrev pub is_at : Text → Text → Bool
is_at line method = starts_with line (method ++ b' ' ∷ [])

unfoldable pub method_of : Text → List Text → Option Text
unfolding starts_with
method_of line [] = none
method_of line (method ∷ ms) =
    let rest = method_of line ms in if is_at line method then some method else rest

-- `text.split_whitespace()`
abbrev onto_word : ℕ → List Text → List Text
onto_word c [] = (c ∷ []) ∷ []
onto_word c (w ∷ ws) = (c ∷ w) ∷ ws

-- The words of a text, the first of them empty when the text starts with white space.
unfoldable pub words_from : Text → List Text
words_from [] = [] ∷ []
words_from (c ∷ cs) =
    let rest = words_from cs in if is_whitespace c then [] ∷ rest else onto_word c rest

unfoldable pub split_whitespace : Text → List Text
unfolding words_from
split_whitespace t = drop_empty (words_from t)
  where
    drop_empty : List Text → List Text
    drop_empty [] = []
    drop_empty ([] ∷ ws) = drop_empty ws
    drop_empty ((c ∷ w) ∷ ws) = (c ∷ w) ∷ drop_empty ws

-- `text.split("\r\n")`
unfoldable pub split_lines : Text → List Text
split_lines [] = [] ∷ []
split_lines (c ∷ []) = (c ∷ []) ∷ []
split_lines (c ∷ d ∷ rest) =
    let after = split_lines rest in
    let later = onto_word c (split_lines (d ∷ rest)) in
    if c == 13 && d == 10 then [] ∷ after else later

-- The lines of `header`, up to the first that is empty.
unfoldable pub look_up : Text → List Text → Option Text
look_up name [] = none
look_up name ([] ∷ lines) = none
look_up name ((c ∷ cs) ∷ lines) =
    let rest = look_up name lines in
    elim (split_once b':' (c ∷ cs)) [
      | none ↦ none
      | some (k, v) ↦
          if text_eq (to_ascii_lowercase (trim k)) (to_ascii_lowercase name)
          then some (trim v)
          else rest
    ]

-- `header`
unfoldable pub header : Bytes → Text → Option Text
unfolding look_up
header head name = look_up name (take 64 (drop 1 (split_lines (from_utf8_lossy head))))

abbrev pub first_some {ℓ} : {A : Type ℓ} → Option A → Option A → Option A
first_some none o = o
first_some (some a) o = some a

-- `write!`, where there is something to write
abbrev written : Text → Option Text → Text
written label none = []
written label (some t) = label ++ t

-- `unwrap_or("")` of the second word
abbrev target_of : Text → Text
target_of line = elim (get_elem? (split_whitespace line) 1) [ none ↦ [] | some w ↦ w ]

-- `http`
unfoldable pub http : Bytes → Option Text
unfolding method_of find header
http d =
    let head = take 8192 d in
    do
      line_end ← first_some (find head (13 ∷ 10 ∷ [])) (find head (10 ∷ []))
      line ← from_utf8 (take line_end head)
      method ← method_of line methods
      guard (is_some (find line (codes "HTTP/")))
      some (
          codes "HTTP "
          ++ (method
              ++ (b' '
                  ∷ (take 80 (target_of line)
                      ++ (written (codes " host=") (header head (codes "host"))
                          ++ written (codes " ua=")
                              (Option.map (take 60) (header head (codes "user-agent"))))))))
