-- ===== src/Queue/Validate.antt =====
-- research_loops/queue.py: the checks of ids, settings and policies.
use autonomous_research_loop.Prelude.{
  ℕ, String, Bool, false, ◌&&◌, ◌||◌, Option, none, some, List, [], ◌∷◌, ◌==◌, leb, nat_beq,
  if◌then◌else◌,
}
use autonomous_research_loop.Prelude.Int.{ℤ, below}
use autonomous_research_loop.Prelude.Texts.{codes}
use autonomous_research_loop.Prelude.Lists.{length, all, mem}
use autonomous_research_loop.Queue.Types.{PolicyValue, flag, text, other}
use autonomous_research_loop.Queue.Store.{
  Error, Result, ok, err, ◌>>=◌, invalid_item_id, invalid_gap_policy, invalid_gap_auto_limit,
  invalid_topic_refresh, invalid_topic_refresh_mode, invalid_lane, invalid_completion_lock,
  invalid_research_policy,
}

-- [A-Za-z0-9]
pub is_alphanumeric : ℕ → Bool
is_alphanumeric c =
    (leb b'A' c && leb c b'Z') || (leb b'a' c && leb c b'z') || (leb b'0' c && leb c b'9')

-- [A-Za-z0-9._-]
pub is_id_character : ℕ → Bool
unfolding is_alphanumeric
is_id_character c = is_alphanumeric c || nat_beq c b'.' || nat_beq c b'_' || nat_beq c b'-'

-- [A-Za-z0-9][A-Za-z0-9._-]{0,127}\Z
matches_item_id : List ℕ → Bool
unfolding is_id_character
matches_item_id [] = false
matches_item_id (c ∷ cs) = is_alphanumeric c && all is_id_character cs && leb (length cs) 127

unfoldable pub is_item_id : String → Bool
unfolding matches_item_id
is_item_id t = matches_item_id (codes t)

unfoldable pub validate_item_id : String → Result String
unfolding is_item_id
validate_item_id t = if is_item_id t then ok t else err invalid_item_id

-- [validate_item_id(value) for value in values]
unfoldable pub validate_item_ids : List String → Result (List String)
unfolding validate_item_id
validate_item_ids [] = ok []
validate_item_ids (t ∷ ts) = do
  first ← validate_item_id t
  rest ← validate_item_ids ts
  ok (first ∷ rest)

abbrev pub gap_policies : List String
gap_policies = "review" ∷ "auto" ∷ []

abbrev pub topic_refresh_schedules : List String
topic_refresh_schedules = "off" ∷ "weekly" ∷ "monthly" ∷ []

abbrev pub topic_refresh_modes : List String
topic_refresh_modes = "light" ∷ "continue" ∷ "full" ∷ []

abbrev pub all_lanes : List String
all_lanes = "research" ∷ "intake" ∷ []

-- `if value not in choices: raise error`
validate_choice : List String → Error → String → Result String
unfolding mem
validate_choice choices e value = if mem value choices then ok value else err e

unfoldable pub validate_gap_policy : String → Result String
unfolding validate_choice
validate_gap_policy = validate_choice gap_policies invalid_gap_policy

unfoldable pub validate_gap_auto_limit : ℤ → Result ℤ
validate_gap_auto_limit value = if below value 0 then err invalid_gap_auto_limit else ok value

unfoldable pub validate_topic_refresh : String → Result String
unfolding validate_choice
validate_topic_refresh = validate_choice topic_refresh_schedules invalid_topic_refresh

unfoldable pub validate_topic_refresh_mode : String → Result String
unfolding validate_choice
validate_topic_refresh_mode = validate_choice topic_refresh_modes invalid_topic_refresh_mode

unfoldable pub validate_lane : String → Result String
unfolding validate_choice
validate_lane = validate_choice all_lanes invalid_lane

-- [0-9a-f]
is_hex : ℕ → Bool
is_hex c = (leb b'0' c && leb c b'9') || (leb b'a' c && leb c b'f')

-- None, or [0-9a-f]{64}\Z
unfoldable pub validate_completion_lock : Option String → Result (Option String)
unfolding is_hex
validate_completion_lock none = ok none
validate_completion_lock (some lock) =
    if nat_beq (length (codes lock)) 64 && all is_hex (codes lock)
    then ok (some lock)
    else err invalid_completion_lock

-- RESEARCH_POLICY_FIELDS: `commercial` and `accept_per_item` are booleans, `domain` is a text.
is_policy_field : String → PolicyValue → Bool
is_policy_field key (flag b) = key == "commercial" || key == "accept_per_item"
is_policy_field key (text t) = key == "domain"
is_policy_field key other = false

unfoldable pub validate_research_policy :
    Option (List (String × PolicyValue)) → Result (Option (List (String × PolicyValue)))
unfolding is_policy_field
validate_research_policy none = ok none
validate_research_policy (some fields) =
    if all (λ f. is_policy_field f.0 f.1) fields
    then ok (some fields)
    else err invalid_research_policy
