-- ===== src/Runner/Patterns.antt =====
-- research_loops/runner.py: the patterns `_PATTERNS`, and the part of Python's `re` that they use,
-- with `re.IGNORECASE`. A text is the list of its code points. Which of them are word characters
-- is the interpreter's Unicode table, the argument `is_word`.
use autonomous_research_loop.Prelude.{
  ℕ, ◌+◌, String, Bool, true, false, not, ◌&&◌, ◌||◌, Option, none, some, List, [], ◌∷◌, leb,
  nat_beq, if◌then◌else◌,
}
use autonomous_research_loop.Prelude.Lists.{any}
use autonomous_research_loop.Prelude.Texts.{codes}

pub data Pattern : Type 0 where
  word : String → Pattern
  one_of : String → Pattern
  any_character word_edge : Pattern
  maybe : Pattern → Pattern
  seq : Pattern → Pattern → Pattern
  alt : Pattern → Pattern → Pattern

infixr 4 ◌or◌
infixr 5 ◌then◌
abbrev ◌or◌ : Pattern → Pattern → Pattern
p or q = alt p q

abbrev ◌then◌ : Pattern → Pattern → Pattern
p then q = seq p q

-- The lower case of a character that has the lower case of an ASCII letter.
abbrev pub fold_case : ℕ → ℕ
fold_case c =
    if leb b'A' c && leb c b'Z'
    then c + 32
    else if nat_beq c 304 || nat_beq c 305
    then b'i'
    else if nat_beq c 383
    then b's'
    else if nat_beq c 8490
    then b'k'
    else c

abbrev same_letter : ℕ → ℕ → Bool
same_letter c d = nat_beq (fold_case c) (fold_case d)

-- The character before a position, if there is one.
abbrev Before : Type 0
Before = Option ℕ

abbrev is_word_at : (ℕ → Bool) → Option ℕ → Bool
is_word_at is_word none = false
is_word_at is_word (some c) = is_word c

abbrev next_character : List ℕ → Option ℕ
next_character [] = none
next_character (c ∷ cs) = some c

-- `k` is the rest of the match; the last character that was read goes with the text that is left.
unfoldable pub match_word : List ℕ → Before → List ℕ → (Before → List ℕ → Bool) → Bool
match_word [] before cs k = k before cs
match_word (l ∷ ls) before [] k = false
match_word (l ∷ ls) before (c ∷ cs) k =
    let rest = match_word ls (some c) cs k in same_letter l c && rest

abbrev pub match_one : (ℕ → Bool) → List ℕ → (Before → List ℕ → Bool) → Bool
match_one test [] k = false
match_one test (c ∷ cs) k = test c && k (some c) cs

unfoldable pub match : (ℕ → Bool) → Pattern → Before → List ℕ → (Before → List ℕ → Bool) → Bool
unfolding match_word
match is_word (word t) before cs k = match_word (codes t) before cs k
match is_word (one_of t) before cs k = match_one (λ c. any (same_letter c) (codes t)) cs k
match is_word any_character before cs k = match_one (λ c. not (nat_beq c 10)) cs k
match is_word word_edge before cs k =
    (if is_word_at is_word before
      then not (is_word_at is_word (next_character cs))
      else is_word_at is_word (next_character cs))
    && k before cs
match is_word (maybe p) before cs k = match is_word p before cs k || k before cs
match is_word (seq p q) before cs k =
    match is_word p before cs (λ before' cs'. match is_word q before' cs' k)
match is_word (alt p q) before cs k = match is_word p before cs k || match is_word q before cs k

abbrev pub finds_from : (ℕ → Bool) → Pattern → Before → List ℕ → Bool
finds_from is_word p before [] = match is_word p before [] (λ _ _. true)
finds_from is_word p before (c ∷ cs) =
    match is_word p before (c ∷ cs) (λ _ _. true) || finds_from is_word p (some c) cs

-- pattern.search(text) is not None
unfoldable pub finds : (ℕ → Bool) → Pattern → String → Bool
unfolding match
finds is_word p t = finds_from is_word p none (codes t)

abbrev pub subscription_limit_pattern : Pattern
subscription_limit_pattern =
    word "weekly usage limit"
    or word "session limit"
    or word "5-hour limit"
    or (word "hit" or word "reached")
      then word " your "
      then (word "weekly" or word "monthly" or word "subscription" or word "usage")
      then word " limit"
    or word "reset" then maybe (word "s") then word " at"

abbrev pub rate_limit_pattern : Pattern
rate_limit_pattern =
    word_edge then word "429" then word_edge
    or word "rate" then maybe any_character then word "limit"
    or word "too many requests"

abbrev pub outage_pattern : Pattern
outage_pattern =
    word_edge then word "50" then one_of "0234" then word_edge
    or word "service unavailable"
    or word "temporarily unavailable"
    or word "provider outage"
    or word "connection " then (word "reset" or word "refused")
    or word "time" then maybe (word "d") then maybe (word " ") then word "out"

abbrev pub auth_pattern : Pattern
auth_pattern =
    word_edge then word "401" then word_edge
    or word_edge then word "403" then word_edge
    or word "unauthori" then one_of "sz" then word "ed"
    or word "invalid " then maybe (word "api ") then word "key"
    or word "authentication failed"
    or word "token expired"

abbrev pub configuration_pattern : Pattern
configuration_pattern =
    word "command not found"
    or word "no such file"
    or word "invalid config"
    or word "configuration error"
    or word "permission denied"
