-- ===== src/Control/Snapshot.antt =====
-- src/ctx_weft/core/control/reducers.py, `SnapshotFacts`, `snapshot_facts_from_event` and
-- `snapshot_is_usable`. The first result none is the exception for a value of another type.

use ctx_weft.Base.{
  ℕ, String, ◌&&◌, ◌≡◌, refl, sym, ◌∙◌, Option, none, some, Bool, true, false, not, eqb, ◌==◌,
  ◌>>=◌, if◌then◌else◌, ◌||◌, arith,
}
use ctx_weft.Base.{subst}
use ctx_weft.Base.Integer.{ℤ, pos, negsuc, pos_part, ◌≤ℤ◌, leb_ℤ}
use ctx_weft.Base.Value.{Value, Fields, null, flag, num, negative, text, dict, list, find}
use ctx_weft.Base.Value.Reading.{as_dict, as_value}
use ctx_weft.Event.Types
use ctx_weft.Event.Types.{type_name}
use ctx_weft.Event.Record.{Event}

pub record SnapshotFacts : Type 0 where
  pub state_blob : Fields
  pub last_commit_position : Option ℤ
  pub projection_version : Value
  pub chain_depth : Value
  pub snapshot_reason : Value
  pub event_id : String
  pub assistant_memory_verified_position : ℤ

-- `isinstance(cut, int)`, which a Boolean is too
unfoldable as_int : Value → Option ℤ
as_int (num n) = some (pos n)
as_int (negative n) = some (negsuc n)
as_int (flag true) = some (pos 1)
as_int (flag false) = some (pos 0)
as_int _ = none

unfoldable int_position : Option Value → Option ℤ
int_position none = none
int_position (some v) = as_int v

-- `type(v) is int`, which a Boolean is not
unfoldable exact_int : Option Value → Option ℤ
exact_int (some (num n)) = some (pos n)
exact_int (some (negative n)) = some (negsuc n)
exact_int _ = none

-- `0 <= verified <= cut`, or 0
unfoldable within_cut : Option ℤ → Option ℤ → ℤ
within_cut (some verified) (some cut) =
    if leb_ℤ (pos 0) verified && leb_ℤ verified cut then verified else pos 0
within_cut _ _ = pos 0

unfoldable verified_position : Option Value → Option Value → ℤ
unfolding within_cut exact_int
verified_position verified cut = within_cut (exact_int verified) (exact_int cut)

unfoldable get_or : Option Value → Option Value → Option Value
get_or default none = default
get_or default (some v) = some v

unfoldable facts_of : Event → Fields → Option Value → Option SnapshotFacts
facts_of ev fs (some (dict blob)) =
    let cut = find "cut_position" fs in
    some (record {
      state_blob = blob;
      last_commit_position = int_position cut;
      projection_version = as_value (num 1) (find "projection_version" fs);
      chain_depth = as_value (num 0) (find "chain_depth" fs);
      snapshot_reason = as_value (text "") (find "reason" fs);
      event_id = ev.id;
      assistant_memory_verified_position =
          verified_position (get_or cut (find "assistant_memory_verified_position" fs)) cut;
    })
facts_of ev fs _ = none

unfoldable pub snapshot_facts_from_event : Option Event → Option (Option SnapshotFacts)
unfolding as_dict as_value find facts_of int_position as_int verified_position within_cut exact_int
    get_or
snapshot_facts_from_event none = some none
snapshot_facts_from_event (some ev) =
    if not (ev.type == type_name Types.state_snapshot)
    then some none
    else (as_dict (some ev.payload) >>= λ fs. some (facts_of ev fs (find "state_blob" fs)))

-- `projection_version in (10, _PROJECTION_VERSION)`
unfoldable is_current : Value → Bool
is_current (num n) = eqb n 10 || eqb n 11
is_current _ = false

unfoldable is_shallow : Option ℕ → Value → Option Bool
is_shallow none depth = some true
is_shallow (some max_chain_depth) depth =
    as_int depth >>= λ n. some (not (leb_ℤ (pos max_chain_depth) n))

unfoldable usable_at : SnapshotFacts → ℕ → Option ℕ → Option ℤ → Option Bool
usable_at snapshot head max_chain_depth none = some false
usable_at snapshot head max_chain_depth (some position) =
    if not (is_current snapshot.projection_version)
    then some false
    else if not (leb_ℤ position (pos head))
    then some false
    else is_shallow max_chain_depth snapshot.chain_depth

unfoldable pub snapshot_is_usable : Option SnapshotFacts → ℕ → Option ℕ → Option Bool
unfolding usable_at is_current is_shallow as_int
snapshot_is_usable none head max_chain_depth = some false
snapshot_is_usable (some snapshot) head max_chain_depth =
    usable_at snapshot head max_chain_depth snapshot.last_commit_position

-- The number of a value that is exactly an integer is its number as an integer.
exact_int-int_position :
    (c : Option Value) (a cut : ℤ) → exact_int c ≡ some a → int_position c ≡ some cut → a ≡ cut
unfolding exact_int int_position as_int
exact_int-int_position none a cut h at = cc
exact_int-int_position (some (num n)) a cut h at = cc
exact_int-int_position (some (negative n)) a cut h at = cc
exact_int-int_position (some (flag b)) a cut h at = cc
exact_int-int_position (some null) a cut h at = cc
exact_int-int_position (some (text t)) a cut h at = cc
exact_int-int_position (some (list vs)) a cut h at = cc
exact_int-int_position (some (dict fs)) a cut h at = cc

-- A position is from 0 on, and at most the cut where that is.
abbrev IsProved : ℤ → ℤ → Type 0
IsProved verified cut = (pos 0 ≤ℤ verified) × (verified ≤ℤ pos (pos_part cut))

within_cut_parts : (a b : ℤ) → IsProved (within_cut (some a) (some b)) b
unfolding within_cut
within_cut_parts (pos a) (pos b) = (ground arith, ground arith)
within_cut_parts (pos a) (negsuc b) = (ground arith, ground arith)
within_cut_parts (negsuc a) b = (ground arith, ground arith)

within_cut-IsProved :
    (v c : Option ℤ) (cut : ℤ) → ((a : ℤ) → c ≡ some a → a ≡ cut) → IsProved (within_cut v c) cut
unfolding within_cut
within_cut-IsProved none c cut same = (omega arith, omega arith)
within_cut-IsProved (some a) none cut same = (omega arith, omega arith)
within_cut-IsProved (some a) (some b) cut same =
    let e = same b refl in
    subst (λ x. IsProved (within_cut (some a) (some b)) x) e (within_cut_parts a b)

verified_position-IsProved :
    (v c : Option Value) (cut : ℤ)
    → int_position c ≡ some cut
    → IsProved (verified_position v c) cut
unfolding verified_position
verified_position-IsProved v c cut at =
    within_cut-IsProved (exact_int v) (exact_int c) cut (λ a h. exact_int-int_position c a cut h at)

-- The two positions of the facts come from the same payload.
abbrev IsRead : SnapshotFacts → Type 0
IsRead facts =
    (v : Option Value) × (c : Option Value) × (facts.last_commit_position ≡ int_position c)
    × (facts.assistant_memory_verified_position ≡ verified_position v c)

facts_of-IsRead :
    (ev : Event) (fs : Fields) (o : Option Value) (facts : SnapshotFacts)
    → facts_of ev fs o ≡ some facts
    → IsRead facts
unfolding facts_of
facts_of-IsRead ev fs (some (dict blob)) facts read = (
  get_or (find "cut_position" fs) (find "assistant_memory_verified_position" fs),
  find "cut_position" fs,
  cc,
  cc,
)
facts_of-IsRead ev fs none facts read = cc
facts_of-IsRead ev fs (some (num n)) facts read = cc
facts_of-IsRead ev fs (some (negative n)) facts read = cc
facts_of-IsRead ev fs (some (text n)) facts read = cc
facts_of-IsRead ev fs (some null) facts read = cc
facts_of-IsRead ev fs (some (flag n)) facts read = cc
facts_of-IsRead ev fs (some (list n)) facts read = cc

of_type-IsRead :
    (ev : Event) (is_snapshot : Bool) (o : Option Fields) (facts : SnapshotFacts)
    → (if not is_snapshot
        then some none
        else (o >>= λ fs. some (facts_of ev fs (find "state_blob" fs))))
      ≡ some (some facts)
    → IsRead facts
of_type-IsRead ev false o facts read = cc
of_type-IsRead ev true none facts read = cc
of_type-IsRead ev true (some fs) facts read = facts_of-IsRead ev fs (find "state_blob" fs) facts cc

snapshot_facts_from_event-IsRead :
    (o : Option Event) (facts : SnapshotFacts)
    → snapshot_facts_from_event o ≡ some (some facts)
    → IsRead facts
unfolding snapshot_facts_from_event
snapshot_facts_from_event-IsRead none facts read = cc
snapshot_facts_from_event-IsRead (some ev) facts read =
    of_type-IsRead ev (ev.type == type_name Types.state_snapshot) (as_dict (some ev.payload)) facts
      read

usable_at-le :
    (s : SnapshotFacts) (head : ℕ) (limit : Option ℕ) (o : Option ℤ)
    → usable_at s head limit o ≡ some true
    → (cut : ℤ) × (o ≡ some cut) × (cut ≤ℤ pos head)
unfolding usable_at
usable_at-le s head limit none usable = cc
usable_at-le s head limit (some cut) usable = (cut, refl, ground arith)

-- The facts that are read from any event and pass as a base for a replay up to `head`, with or
-- without a limit of the chain, have their cut, which is at most `head`; the position up to which the
-- memory is verified is not negative, and is at most the cut, or 0 where the cut is negative.
pub snapshot_is_usable-bounds :
    (o : Option Event) (facts : SnapshotFacts) (head : ℕ) (max_chain_depth : Option ℕ)
    → snapshot_facts_from_event o ≡ some (some facts)
    → snapshot_is_usable (some facts) head max_chain_depth ≡ some true
    → (cut : ℤ) × (facts.last_commit_position ≡ some cut)
      × (cut ≤ℤ pos head)
      × (pos 0 ≤ℤ facts.assistant_memory_verified_position)
      × (facts.assistant_memory_verified_position ≤ℤ pos (pos_part cut))
unfolding snapshot_is_usable
snapshot_is_usable-bounds o facts head limit read usable =
    let (v, c, at, verified) = snapshot_facts_from_event-IsRead o facts read in
    let (cut, position, below) = usable_at-le facts head limit facts.last_commit_position usable in
    let proved = verified_position-IsProved v c cut (sym at ∙ position) in
    let here = subst (λ x. IsProved x cut) (sym verified) proved in
    (cut, position, below, here.0, here.1)
