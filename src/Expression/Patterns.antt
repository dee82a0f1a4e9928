-- ===== src/Expression/Patterns.antt =====
-- What the LIKE translation of execution/relation.go means: a pattern is read as a list of wildcards
-- and literal characters, or is malformed, and the regular expression is the list written out.
use octosql.Base.{
  Bool, ℕ, ◌≡◌, false, List, [], ◌∷◌, ◌++◌, ◌==◌, ◌||◌, if◌then◌else◌, Outcome, ok, err,
  bad_pattern, Option, none, some,
}
use octosql.Expression.Like.{like_escape, like_any, like_all, is_escapable}

-- A pattern, as the SQL operator means it.
pub data Token : Type 0 where
  any_character any_text : Token
  literal : ℕ → Token

abbrev with_token : Token → Option (List Token) → Option (List Token)
with_token t none = none
with_token t (some ts) = some (t ∷ ts)

-- The tokens of a pattern: an escape stands before `\`, `_` or `%`, and nowhere else.
pub tokens : List ℕ → Option (List Token)
tokens [] = some []
tokens (r ∷ []) =
    if r == like_any
    then some (any_character ∷ [])
    else if r == like_all
    then some (any_text ∷ [])
    else if r == like_escape
    then none
    else some (literal r ∷ [])
tokens (r ∷ s ∷ rs) =
    let rest = tokens (s ∷ rs) in
    let after = tokens rs in
    if r == like_any
    then with_token any_character rest
    else if r == like_all
    then with_token any_text rest
    else if r == like_escape
    then (if is_escapable s then with_token (literal s) after else none)
    else with_token (literal r) rest

-- The characters that mean something else than themselves in a regular expression:
-- `\ . + * ? ( ) | [ ] { } ^ $`.
abbrev operators : List ℕ
operators =
    92 ∷ b'.' ∷ b'+' ∷ b'*' ∷ b'?' ∷ b'(' ∷ b')' ∷ b'|' ∷ b'[' ∷ b']' ∷ b'{' ∷ b'}' ∷ b'^' ∷ b'$'
    ∷ []

abbrev is_among : ℕ → List ℕ → Bool
is_among r [] = false
is_among r (o ∷ os) = r == o || is_among r os

-- Neither of the two operators that the translation leaves as they are.
abbrev pub AllQuotable : List ℕ → Type 0
AllQuotable [] = Unit
AllQuotable (r ∷ rs) = ((r == b'*') ≡ false) × ((r == b'|') ≡ false) × AllQuotable rs

-- A token as a regular expression: a literal operator stands behind a `\`.
render_token : Token → List ℕ
render_token any_character = b'.' ∷ []
render_token any_text = b'.' ∷ b'*' ∷ []
render_token (literal r) = if is_among r operators then like_escape ∷ r ∷ [] else r ∷ []

pub render : List Token → List ℕ
render [] = []
render (t ∷ ts) = render_token t ++ render ts

abbrev pub written : List ℕ → Option (List Token) → Outcome (List ℕ)
written sb none = err bad_pattern
written sb (some ts) = ok (sb ++ (render ts ++ b'$' ∷ []))

-- The four ways to read a character outside an escape.
data Reading (r : ℕ) : Type 0 where
  is_any : r ≡ like_any → Reading r
  is_all : r ≡ like_all → Reading r
  is_escape : r ≡ like_escape → Reading r
  is_plain :
      (r == like_any) ≡ false → (r == like_all) ≡ false → (r == like_escape) ≡ false → Reading r
