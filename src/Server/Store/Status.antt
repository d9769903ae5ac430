-- ===== src/Server/Store/Status.antt =====
-- longhaul-server/src/store.rs: `parse_status`, the reader of the stored status texts.
use longhaul.Base.{
  ap, String, ◌≡◌, refl, ◌↔◌, Option, none, some, arith, eq_iff, if◌then◌else◌, ◌==◌,
}
use longhaul.Core.Tasks.{TaskStatus, working, input_required, completed, failed, cancelled, as_str}

unfoldable pub parse_status : String → Option TaskStatus
parse_status s =
    if s == "working"
    then some working
    else if s == "inputRequired"
    then some input_required
    else if s == "completed"
    then some completed
    else if s == "failed"
    then some failed
    else if s == "cancelled"
    then some cancelled
    else none

pub parse_status-as_str : (s : TaskStatus) → parse_status (as_str s) ≡ some s
unfolding parse_status as_str
parse_status-as_str working = refl
parse_status-as_str input_required = refl
parse_status-as_str completed = refl
parse_status-as_str failed = refl
parse_status-as_str cancelled = refl

pub as_str-parse_status : (t : String) (s : TaskStatus) → parse_status t ≡ some s → t ≡ as_str s
unfolding parse_status as_str
as_str-parse_status t s h = ground (
  arith,
  eq_iff t "working",
  eq_iff t "inputRequired",
  eq_iff t "completed",
  eq_iff t "failed",
  eq_iff t "cancelled",
)

-- A stored text is read as a status exactly when it is the text that the status is written as, so
-- two statuses are never stored alike, and any other text is refused.
pub parse_status_iff : (t : String) (s : TaskStatus) → (parse_status t ≡ some s) ↔ (t ≡ as_str s)
parse_status_iff t s = (as_str-parse_status t s, λ e. rw e (parse_status-as_str s))

pub as_str_injective : (s t : TaskStatus) → as_str s ≡ as_str t → s ≡ t
as_str_injective s t h = cc (parse_status-as_str s, parse_status-as_str t, ap parse_status h)
