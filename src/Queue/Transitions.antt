-- ===== src/Queue/Transitions.antt =====
-- research_loops/queue.py: what each operation does to the fields of the item that it found.
use Prim.Native.String
use text.Mathlib.Text.{starts_with}
use autonomous_research_loop.Prelude.{
  ℕ, ◌+◌, String, Bool, true, false, not, ◌&&◌, ◌||◌, Option, none, some, List, ◌==◌, if◌then◌else◌,
}
use autonomous_research_loop.Prelude.Int.{ℤ}
use autonomous_research_loop.Prelude.Texts.{last_chars}
use autonomous_research_loop.Prelude.Lists.{keep}
use autonomous_research_loop.Queue.Types.{
  Status, DesiredState, ClaimedBy, queued, backoff, needs_attention, completed, stopping, releasing,
  missing, null, by, Item,
}

abbrev pub is_running : Status → Bool
is_running Status.running = true
is_running _ = false

-- status in {"queued", "backoff"}
abbrev pub is_waiting : Status → Bool
is_waiting queued = true
is_waiting backoff = true
is_waiting _ = false

abbrev pub is_completed : Status → Bool
is_completed completed = true
is_completed _ = false

abbrev pub is_needs_attention : Status → Bool
is_needs_attention needs_attention = true
is_needs_attention _ = false

abbrev pub is_backoff : Status → Bool
is_backoff backoff = true
is_backoff _ = false

abbrev pub wants_running : DesiredState → Bool
wants_running DesiredState.running = true
wants_running _ = false

abbrev pub wants_paused : DesiredState → Bool
wants_paused DesiredState.paused = true
wants_paused _ = false

abbrev pub is_stopping : DesiredState → Bool
is_stopping stopping = true
is_stopping _ = false

abbrev pub is_releasing : DesiredState → Bool
is_releasing releasing = true
is_releasing _ = false

-- item.get("claimed_by") == worker
abbrev pub claims : ClaimedBy → String → Bool
claims (by holder) worker = holder == worker
claims _ worker = false

-- item.get("claimed_by", "worker-1") == worker
abbrev pub owns : ClaimedBy → String → Bool
owns missing worker = "worker-1" == worker
owns null worker = false
owns (by holder) worker = holder == worker

-- `text or default`, where null and the empty text are false
abbrev pub or_text : Option String → String → String
or_text none d = d
or_text (some t) d = if t == "" then d else t

-- The STOP file of `_clear_stop_file`: none if the item names none. `cwd` is an absolute path, and
-- paths are compared as texts.
unfoldable pub stop_path : Item → Option String
stop_path i = elim i.stop_file [
  | none ↦ none
  | some f ↦
      if f == ""
      then none
      else some (if starts_with f "/" then f else String.◌++◌ i.cwd (String.◌++◌ "/" f))
]

-- `_clear_stop_file`; a file that is not there stays absent.
unfoldable pub clear_stop_file : Item → List String → List String
clear_stop_file i disk = elim (stop_path i) [
  | none ↦ disk
  | some path ↦ keep (λ p. not (p == path)) disk
]

unfoldable pub paused_item : Option String → Bool → ℕ → Item → Item
paused_item reason graceful now i =
    let noted = record i {
      last_error = some (or_text reason "paused by operator");
      last_error_kind = some "operator_pause";
      updated_at = now;
    } in
    if graceful && is_running i.status
    then record noted { desired_state = stopping }
    else record noted {
      desired_state = DesiredState.paused;
      status = if is_running i.status then i.status else Status.paused;
    }

-- status in {"paused", "needs_attention", "backoff"}
abbrev pub is_resumable : Status → Bool
is_resumable Status.paused = true
is_resumable needs_attention = true
is_resumable backoff = true
is_resumable _ = false

unfoldable pub resumed_item : ℕ → Item → Item
resumed_item now i = record i {
  desired_state = DesiredState.running;
  status = if is_resumable i.status then queued else i.status;
  next_eligible_at = none;
  consecutive_failures = 0;
  last_error = none;
  last_error_kind = none;
  claimed_by = null;
  updated_at = now;
}

-- AUTO_RESUME_ERROR_KINDS
abbrev pub heals_itself : Option String → Bool
heals_itself none = false
heals_itself (some kind) = kind == "transient" || kind == "outage" || kind == "rate_limit"

unfoldable pub auto_resumed_item : ℕ → Item → Item
auto_resumed_item now i = record i {
  status = queued;
  desired_state = DesiredState.running;
  consecutive_failures = 0;
  next_eligible_at = none;
  claimed_by = null;
  updated_at = now;
}

unfoldable pub reopened_item : ℕ → Item → Item
reopened_item now i = record i {
  status = queued;
  desired_state = DesiredState.running;
  claimed_by = null;
  refresh_due_at = none;
  refresh_count = i.refresh_count + 1;
  next_eligible_at = none;
  consecutive_failures = 0;
  last_error = none;
  last_error_kind = none;
  updated_at = now;
}

unfoldable pub restart_requested : ℕ → Item → Item
restart_requested now i = record i {
  restart_generation = i.restart_generation + 1;
  desired_state = DesiredState.running;
  status = if is_running i.status then i.status else queued;
  next_eligible_at = none;
  consecutive_failures = 0;
  last_error = none;
  last_error_kind = none;
  claimed_by = null;
  updated_at = now;
}

unfoldable pub completed_item : ℤ → ℕ → Item → Item
completed_item exit_code now i = record i {
  status = completed;
  desired_state = DesiredState.paused;
  finished_at = some now;
  last_exit_code = some exit_code;
  last_pid = none;
  last_pid_fingerprint = none;
  updated_at = now;
}

unfoldable pub pid_item : Option ℕ → Option String → ℕ → Item → Item
pid_item pid fingerprint now i = record i {
  last_pid = pid;
  last_pid_fingerprint = elim pid [ none ↦ none | some _ ↦ fingerprint ];
  updated_at = now;
}

-- What the marks after a run share: the process is gone, and the run is over.
abbrev ended : ℕ → Item → Item
ended now i = record i {
  last_pid = none;
  last_pid_fingerprint = none;
  finished_at = some now;
  updated_at = now;
}

unfoldable pub paused_after_stop : ℕ → Item → Item
paused_after_stop now i = ended now (record i { status = Status.paused })

unfoldable pub queued_after_global_pause : ℕ → Item → Item
queued_after_global_pause now i = ended now (record i { status = queued })

unfoldable pub restarted_after_stop : ℕ → Item → Item
restarted_after_stop now i = ended now (record i { status = queued; next_eligible_at = none })

-- The transfer at an iteration's boundary to the station that reserved the item.
abbrev transferred : Option String → Item → Item
transferred none i = i
transferred (some worker) i =
    if worker == "" then i else record i { claimed_by = by worker; next_eligible_at = none }

unfoldable pub scheduled_item : ℕ → ℕ → Item → Item
scheduled_item next_eligible_at now i = ended now (
    transferred i.reserved_for (record i {
      status = backoff;
      consecutive_failures = 0;
      last_exit_code = some (ℤ.pos 0);
      last_error_kind = none;
      last_error = none;
      next_eligible_at = some next_eligible_at;
      reserved_for = none;
    }))

unfoldable pub backoff_item : ℤ → String → String → ℕ → ℕ → Item → Item
backoff_item exit_code error_kind message next_eligible_at now i = ended now (record i {
  status = backoff;
  consecutive_failures = i.consecutive_failures + 1;
  last_exit_code = some exit_code;
  last_error_kind = some error_kind;
  last_error = some (last_chars 4000 message);
  next_eligible_at = some next_eligible_at;
})

unfoldable pub needs_attention_item : ℤ → String → String → Bool → ℕ → Item → Item
needs_attention_item exit_code error_kind message consume_failure now i = ended now (record i {
  status = needs_attention;
  desired_state = DesiredState.paused;
  consecutive_failures =
      if consume_failure then i.consecutive_failures + 1 else i.consecutive_failures;
  last_exit_code = some exit_code;
  last_error_kind = some error_kind;
  last_error = some (last_chars 4000 message);
  next_eligible_at = none;
})
