-- ===== src/Expression/Like.antt =====
-- execution/relation.go: the translation of a LIKE pattern into a regular expression. A text is the
-- list of its code points.
use octosql.Base.{
  ℕ, Bool, true, false, ◌||◌, List, [], ◌∷◌, ◌++◌, ◌==◌, if◌then◌else◌, Outcome, ok, err,
  bad_pattern,
}

-- `\`, `_` and `%`.
abbrev pub like_escape : ℕ
like_escape = 92

abbrev pub like_any : ℕ
like_any = b'_'

abbrev pub like_all : ℕ
like_all = b'%'

unfoldable pub needs_escaping : ℕ → Bool
needs_escaping r =
    r == b'+'
    || r == b'?'
    || r == b'('
    || r == b')'
    || r == b'{'
    || r == b'}'
    || r == b'['
    || r == b']'
    || r == b'^'
    || r == b'$'
    || r == b'.'

-- A character behind an escape: it is written as it is, and a `\` is written twice.
unfoldable pub escaped_text : ℕ → List ℕ
escaped_text r = if r == like_escape then r ∷ like_escape ∷ [] else r ∷ []

-- A character that is no escape.
unfoldable pub plain_text : ℕ → List ℕ
unfolding needs_escaping
plain_text r =
    if r == like_any
    then b'.' ∷ []
    else if r == like_all
    then b'.' ∷ b'*' ∷ []
    else if needs_escaping r
    then like_escape ∷ r ∷ []
    else r ∷ []

abbrev pub is_escapable : ℕ → Bool
is_escapable r = r == like_any || r == like_all || r == like_escape

-- The loop over the pattern, with the flag `escaping` and the text written so far.
unfoldable pub like_loop : List ℕ → Bool → List ℕ → Outcome (List ℕ)
like_loop [] escaping sb = if escaping then err bad_pattern else ok (sb ++ b'$' ∷ [])
like_loop (r ∷ rs) true sb =
    let rest = like_loop rs false (sb ++ escaped_text r) in
    if is_escapable r then rest else err bad_pattern
like_loop (r ∷ rs) false sb =
    let escape = like_loop rs true sb in
    let plain = like_loop rs false (sb ++ plain_text r) in
    if r == like_escape then escape else plain

unfoldable pub like_pattern_to_regexp : List ℕ → Outcome (List ℕ)
unfolding like_loop escaped_text plain_text
like_pattern_to_regexp pattern = like_loop pattern false (b'^' ∷ [])
