-- ===== src/Queue/Enqueue.antt =====
-- _enqueue_in_session of database.py, on the row of the request's pull request.
use extra_codeowners.Prelude.{
  ℕ, ◌+◌, Bool, true, false, not, ◌&&◌, ◌||◌, ◌==◌, nat_eq, list_eq, if◌then◌else◌, Option, none,
  some,
}
use extra_codeowners.Text.{Str}
use extra_codeowners.Epochs.{WorkClass, interactive, is_interactive, Epoch, generation_of}
use extra_codeowners.Webhooks.{JobRequest}
use extra_codeowners.Queue.{EvaluationJob}

-- The arguments of a call; the clock, and what it reads from other tables: the generation of the
-- installation's authority and the epoch of the request's head. `fresh_id` is the key that the
-- database gives a row which the call inserts.
pub record EnqueueCall : Type 0 where
  pub now : ℕ
  pub fresh_id : ℕ
  pub authority : Option ℕ
  pub epoch : Option Epoch
  pub request : JobRequest
  pub delivery_id : Option Str
  pub shared_head_generation : Option ℕ
  pub preserve_different_head : Bool
  pub preserve_work_class : Bool

-- x or 0
unfoldable pub or_zero : Option ℕ → ℕ
or_zero none = 0
or_zero (some n) = n

unfoldable pub head_generation : EnqueueCall → ℕ
unfolding generation_of
head_generation call = elim call.shared_head_generation [
  | some generation ↦ generation
  | none ↦ elim call.request.head_sha_hint [ none ↦ 0 | some head ↦ generation_of call.epoch ]
]

-- head_sha_hint IS NULL OR head_sha_hint = ..., where NULL equals nothing
unfoldable pub has_same_head : Option Str → Option Str → Bool
has_same_head none requested = true
has_same_head (some head) none = false
has_same_head (some head) (some requested) = head == requested

unfoldable pub coalesced_class : Bool → WorkClass → WorkClass → WorkClass
unfolding is_interactive
coalesced_class preserve current requested =
    if preserve && is_interactive current then interactive else requested

unfoldable pub newer_delivery : Option Str → Option Str → Option Str
newer_delivery none current = current
newer_delivery (some delivery) current = some delivery

-- the UPDATE
unfoldable pub coalesced : EnqueueCall → EvaluationJob → EvaluationJob
unfolding or_zero head_generation coalesced_class newer_delivery
coalesced call row = record row {
  generation = row.generation + 1;
  work_class = coalesced_class call.preserve_work_class row.work_class call.request.work_class;
  authority_generation = or_zero call.authority;
  shared_head_generation = head_generation call;
  reason = call.request.reason;
  head_sha_hint = call.request.head_sha_hint;
  base_ref_hint = call.request.base_ref_hint;
  requested_at = call.now;
  available_at = call.now;
  attempts = 0;
  lease_owner = none;
  lease_until = none;
  last_delivery_id = newer_delivery call.delivery_id row.last_delivery_id;
}

-- the INSERT
unfoldable pub inserted : EnqueueCall → EvaluationJob
unfolding or_zero head_generation
inserted call = record {
  id = call.fresh_id;
  installation_id = call.request.installation_id;
  repository_full_name = call.request.repository_full_name;
  pull_number = call.request.pull_number;
  head_sha_hint = call.request.head_sha_hint;
  base_ref_hint = call.request.base_ref_hint;
  last_delivery_id = call.delivery_id;
  reason = call.request.reason;
  work_class = call.request.work_class;
  generation = 1;
  authority_generation = or_zero call.authority;
  shared_head_generation = head_generation call;
  attempts = 0;
  requested_at = call.now;
  available_at = call.now;
  lease_owner = none;
  lease_until = none;
}

-- whether the conditions of the UPDATE hold on the row
unfoldable pub replaces : EnqueueCall → EvaluationJob → Bool
unfolding has_same_head
replaces call row =
    not call.preserve_different_head || has_same_head row.head_sha_hint call.request.head_sha_hint

unfoldable pub enqueue : EnqueueCall → Option EvaluationJob → EvaluationJob
unfolding replaces coalesced inserted
enqueue call none = inserted call
enqueue call (some row) = if replaces call row then coalesced call row else row
