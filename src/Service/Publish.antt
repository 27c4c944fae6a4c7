-- ===== src/Service/Publish.antt =====
-- service/app/outbox.py: the commands of the outbox, and service/app/custody_service.py: how they
-- are published. What the publisher answers is an argument: `none` stands for an exception.
use Prim.Native.String.{slice}
use found_roll.Prelude.{
  ℕ, ◌+◌, String, Bool, false, true, Option, none, some, ok, err, Exec, unavailable, and_then, ◌<>◌,
  decimal, if◌then◌else◌,
}
use found_roll.Prelude.Json.{Hashing}
use found_roll.Domain.{
  CaseRecord, OutboxKind, analyze_case, reserve_relay, release_relay, OutboxRecord, pending,
  dispatched, failed, publish,
}
use found_roll.Repository.{Repo}
use found_roll.Repository.Outbox.{mark_outbox}
use found_roll.Service.{Settings}

-- `kind.value`, and `kind.value.lower().replace("_", "-")`
unfoldable pub kind_value : OutboxKind → String
kind_value analyze_case = "ANALYZE_CASE"
kind_value reserve_relay = "RESERVE_RELAY"
kind_value release_relay = "RELEASE_RELAY"

unfoldable pub kind_slug : OutboxKind → String
kind_slug analyze_case = "analyze-case"
kind_slug reserve_relay = "reserve-relay"
kind_slug release_relay = "release-relay"

-- `OpaqueTaskPayload`
pub record OpaqueTaskPayload : Type 0 where
  pub case_id : String
  pub outbox_id : String

-- `opaque_payload`
unfoldable pub opaque_payload : OutboxRecord → OpaqueTaskPayload
opaque_payload outbox = record { case_id = outbox.case_id; outbox_id = outbox.id }

-- the dictionaries that publishers return
pub record TaskReceipt : Type 0 where
  pub queued : Bool
  pub mode : String
  pub task_name : String
  pub payload : Option OpaqueTaskPayload
  pub idempotent_replay : Bool

-- `InlineTaskPublisher.publish`
unfoldable pub inline_receipt : OutboxRecord → TaskReceipt
unfolding opaque_payload
inline_receipt outbox = record {
  queued = false;
  mode = "inline";
  task_name = outbox.task_name;
  payload = some (opaque_payload outbox);
  idempotent_replay = false;
}

unfoldable cloud_receipt : OutboxRecord → TaskReceipt
cloud_receipt outbox = record {
  queued = true;
  mode = "cloud_tasks";
  task_name = outbox.task_name;
  payload = none;
  idempotent_replay = true;
}

-- `_publish_outbox`: a marker that raises ends the call too
unfoldable pub publish_outbox : OutboxRecord → Option TaskReceipt → Exec Repo TaskReceipt
publish_outbox outbox none repo =
    and_then
      (mark_outbox outbox.id failed none none (some publish) (some "task_publish_failed") repo)
      (λ marked after. (err (unavailable "task_publish_failed"), after))
publish_outbox outbox (some answer) repo =
    if answer.queued
    then and_then (mark_outbox outbox.id dispatched none none none none repo)
        (λ marked after. (ok answer, after))
    else (ok answer, repo)

-- `_existing_task_receipt`
unfoldable pub existing_task_receipt :
    Settings → OutboxRecord → Option TaskReceipt → Exec Repo TaskReceipt
unfolding publish_outbox cloud_receipt inline_receipt
existing_task_receipt settings outbox answer repo = elim outbox.status [
  | pending ↦ publish_outbox outbox answer repo
  | failed ↦ (err (unavailable "task_publish_failed"), repo)
  | _ ↦ (ok (if settings.cloud_tasks then cloud_receipt outbox else inline_receipt outbox), repo)
]

module _ ⦃h : Hashing⦄ where
  -- the digest of `make_outbox`
  unfoldable outbox_digest : OutboxKind → CaseRecord → String
  unfolding kind_value decimal
  outbox_digest kind case = h.uuid5_hex (
      "found-roll:"
      <> case.id
      <> ":"
      <> case.workflow_epoch
      <> ":"
      <> kind_value kind
      <> ":"
      <> decimal (case.version + 1))

  -- `make_outbox`
  unfoldable pub make_outbox : OutboxKind → CaseRecord → ℕ → OutboxRecord
  unfolding outbox_digest kind_slug
  make_outbox kind case created_at =
      let digest = outbox_digest kind case in
      record {
        id = "out-" <> slice digest 0 24;
        task_name = "fr-" <> kind_slug kind <> "-" <> slice digest 0 20;
        kind = kind;
        case_id = case.id;
        expected_case_version = case.version + 1;
        status = pending;
        attempt = 0;
        created_at = created_at;
        completed_at = none;
        result_attestation_id = none;
        failure_stage = none;
        failure_code = none;
        replay_count = 0;
        last_replayed_at = none;
        last_replay_task_name = none;
      }

  -- `replay_task_name`
  unfoldable pub replay_task_name : OutboxRecord → String → String
  replay_task_name outbox idempotency_key =
      "fr-replay-"
      <> slice (h.uuid5_hex ("found-roll:replay:" <> outbox.id <> ":" <> idempotency_key)) 0 20
