-- ===== src/Hitl/Tests.antt =====
-- A request of a tool call, answered in one stage and in two.
use ctx_weft.Base.{if◌then◌else◌, ◌==◌, All, ◌+◌, ◌≡◌, refl, none, some, false, List, [], ◌∷◌}
use ctx_weft.Base.Value.{null}
use ctx_weft.Base.Dict.{lookup, insert}
use ctx_weft.Content.{plain}
use ctx_weft.Hitl.Contract.{HitlAsk, HitlDecision, tool_result_delivery}
use ctx_weft.Hitl.Record.{resolved, PendingHitl}
use ctx_weft.Hitl.Registry.{
  Requests, Opening, stage_authz, fresh_request, open_request, claim, claim_request, commit_claim,
  resolve, resolve_request, uncommit_claim, release_claim,
}
use ctx_weft.Hitl.Registry.Reads.{decision_for}
use ctx_weft.Hitl.Registry.Forget.{forget_session, gc}
use ctx_weft.Base.{mem}
use ctx_weft.Hitl.Registry.{attach_slot}
use ctx_weft.Hitl.Registry.Load.{placeholder, load_snapshot}
use ctx_weft.Hitl.Snapshot.{HitlSnapshot}
use ctx_weft.Hitl.Removal.{IsRegistry, holds, lookup-forget_session, lookup-gc}
use ctx_weft.Hitl.Loading.{lookup-load_snapshot}
use ctx_weft.Hitl.Claim.{
  IsOpen, claim-commit_claim, uncommit_claim-commit_claim, release_claim-claim,
}
use ctx_weft.Hitl.Opening.{open_request-open_request}
use ctx_weft.Hitl.Decisions.{IsAnswer, decision_for-IsAnswer}
use ctx_weft.Hitl.Final.{
  Call, resolve_call, claim_call, release_call, close_call, perform_all, IsDecided,
  perform_all-IsDecided,
}

abbrev ask : HitlAsk
ask = record {
  form = "approval";
  delivery = tool_result_delivery "call_1";
  prompt = "Delete the file?";
  detail = "";
  fields = [];
  proposal = null;
  subject_id = "shell";
  resume_state = null;
  reply_as_result = false;
}

abbrev opening : Opening
opening = record {
  hitl_id = "h1";
  session_id = "s1";
  task_id = "essay";
  agent_id = "a1";
  tool_call_id = "call_1";
  stage = stage_authz;
  created_at = 10;
  invocation_key = "k1";
  tenant_id = "default";
}

abbrev request : PendingHitl
request = fresh_request ask opening

abbrev open_requests : Requests
open_requests = ("h1", request) ∷ []

abbrev approve : HitlDecision
approve = record { outcome = "approved"; message = plain ""; modified_arguments = null }

stored : lookup "h1" open_requests ≡ some request
unfolding lookup
stored = refl

request-IsOpen : IsOpen request
unfolding fresh_request
request-IsOpen = (refl, refl)

claim-commit_claim_example :
    (commit_claim "h1" 12 (claim "h1" approve null open_requests).1 ≡ (
      some (record (resolve_request approve 12 request) { pending_event_payload = null }),
      insert "h1"
          (record (resolve_request approve 12 request) { pending_event_payload = null })
          open_requests,
    ))
    × (resolve "h1" approve 12 open_requests ≡ (
      some (resolve_request approve 12 request, request.slot),
      insert "h1" (resolve_request approve 12 request) open_requests,
    ))
    × ((claim "h1" approve null open_requests).0
        ≡ some (claim_request approve null request, request.slot))
claim-commit_claim_example =
    claim-commit_claim "h1" approve null 12 open_requests request stored request-IsOpen

abbrev claimed : PendingHitl
claimed = claim_request approve null request

abbrev claimed_requests : Requests
claimed_requests = ("h1", claimed) ∷ []

stored_claimed : lookup "h1" claimed_requests ≡ some claimed
unfolding lookup
stored_claimed = refl

claimed_undecided :
    (claimed.decision ≡ none)
    × (claimed.pending_decision ≡ some approve)
    × (claimed.resolved_at ≡ none)
unfolding claim_request fresh_request
claimed_undecided = (refl, refl, refl)

uncommit_claim-commit_claim_example :
    uncommit_claim "h1" (commit_claim "h1" 12 claimed_requests).1 ≡ (some claimed, claimed_requests)
uncommit_claim-commit_claim_example =
    uncommit_claim-commit_claim "h1" 12 claimed_requests claimed approve stored_claimed
      claimed_undecided.0 claimed_undecided.1 claimed_undecided.2

release_claim-claim_example :
    (release_claim "h1" (claim "h1" approve null open_requests).1).1
    ≡ insert "h1"
        (record request {
          pending_event_payload = null;
          claimed = false;
          slot = none;
          reply_attempt = request.reply_attempt + 1;
        })
        open_requests
release_claim-claim_example =
    release_claim-claim "h1" approve null open_requests request stored request-IsOpen

open_request-open_request_example :
    open_request ask (record opening { hitl_id = "h2" }) (open_request ask opening []).1
    ≡ ((open_request ask opening []).0, (open_request ask opening []).1)
open_request-open_request_example =
    open_request-open_request ask ask opening (record opening { hitl_id = "h2" }) []
      (refl, refl, refl, refl) refl

abbrev decided : PendingHitl
decided = resolve_request approve 12 request

abbrev decided_requests : Requests
decided_requests = ("h1", decided) ∷ []

answered : decision_for "s1" "call_1" "authz" (some "k1") decided_requests ≡ some (approve, null)
unfolding decision_for resolve_request fresh_request
answered = refl

decision_for-IsAnswer_example :
    (r : PendingHitl) × IsAnswer "s1" "call_1" "authz" (some "k1") decided_requests approve null r
decision_for-IsAnswer_example =
    decision_for-IsAnswer "s1" "call_1" "authz" (some "k1") decided_requests approve null answered

abbrev refuse : HitlDecision
refuse = record { outcome = "rejected"; message = plain ""; modified_arguments = null }

abbrev late_calls : List Call
late_calls =
    resolve_call "h1" refuse 13
    ∷ claim_call "h1" refuse null
    ∷ release_call "h1"
    ∷ close_call "h1"
    ∷ []

is_decided : IsDecided "h1" approve (some 12) decided_requests
unfolding lookup resolve_request
is_decided = record { request = decided; stored = refl; decided = refl; at_time = refl }

perform_all-IsDecided_example :
    IsDecided "h1" approve (some 12) (perform_all late_calls decided_requests)
perform_all-IsDecided_example =
    perform_all-IsDecided "h1" approve (some 12) late_calls decided_requests
      (tt, (tt, (tt, (tt, tt)))) is_decided

open_requests-IsRegistry : IsRegistry open_requests
unfolding lookup fresh_request
open_requests-IsRegistry = ((refl, refl), tt)

lookup-forget_session_example : lookup "h1" (forget_session "s1" open_requests).1 ≡ (
    if holds (λ r. r.session_id == "s1") (lookup "h1" open_requests)
    then none
    else lookup "h1" open_requests)
lookup-forget_session_example =
    lookup-forget_session "s1" "h1" open_requests open_requests-IsRegistry

request_open : resolved request ≡ false
unfolding resolved fresh_request
request_open = refl

lookup-gc_example : lookup "h1" (gc 0 open_requests) ≡ some request
lookup-gc_example =
    lookup-gc 0 "h1" request open_requests open_requests-IsRegistry stored request_open

-- The log has an older answer to the same request, and a decision without its request.
abbrev folded : HitlSnapshot
folded = record {
  opened = ("h1", decided) ∷ [];
  decision_owner = [];
  pending = [];
  decisions_for =
      (record { session_id = "s1"; tool_call_id = "call_7"; stage = stage_authz }, (approve, null))
      ∷ [];
  resolved = ("h1", decided) ∷ [];
}

abbrev pending_folded : HitlSnapshot
pending_folded = record {
  opened = ("h1", request) ∷ [];
  decision_owner = [];
  pending = ("h1", request) ∷ [];
  decisions_for = [];
  resolved = [];
}

folded_apart : All (λ c. ((placeholder c).id == "h1") ≡ false) folded.decisions_for
unfolding placeholder
folded_apart = (refl, tt)

lookup-load_snapshot_example : lookup "h1" (load_snapshot [] folded open_requests).1 ≡ some request
unfolding mem
lookup-load_snapshot_example =
    lookup-load_snapshot "h1" request [] folded open_requests refl folded_apart stored

-- A snapshot with a pending request, which is loaded, waited for, and loaded again as the same object.
abbrev waiting_again : Requests
waiting_again = attach_slot "h1" 5 (load_snapshot [] pending_folded []).1

slot_lost :
    (lookup "h1" waiting_again ≡ some (record request { slot = some 5 }))
    × (lookup "h1" (load_snapshot ("h1" ∷ []) pending_folded waiting_again).1
        ≡ some (record request { slot = none }))
unfolding lookup load_snapshot attach_slot fresh_request mem
slot_lost = (refl, refl)
