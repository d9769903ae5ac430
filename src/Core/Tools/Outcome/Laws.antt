-- ===== src/Core/Tools/Outcome/Laws.antt =====
-- Reading and writing the outcome of a tool call.
use longhaul.Base.{
  String, ◌≡◌, refl, ◌↔◌, inl, inr, Option, none, some, arith, eq_iff, ◌==◌, Bool-cases, Result, ok,
  err, map_ok, ok_injective,
}
use mathlib.Core.Path.{subst}
use longhaul.Json.{Value, ValueMethods}
use longhaul.Core.Tools.Outcome.{
  ToolCallOutcome, content, task, input_required, Payloads, result_type, classify, deserialize,
  String,
}

-- The discriminator that a kind of outcome is read under.
abbrev pub tag_of : ToolCallOutcome → Option String
tag_of (content r) = none
tag_of (task r) = some "task"
tag_of (input_required r) = some "inputRequired"

module _ (methods : ValueMethods) (payloads : Payloads) (debug : String → String) where
  tag_of-classify :
      (t : Option String) (v : Value) (o : ToolCallOutcome)
      → classify methods payloads debug t v ≡ ok o
      → t ≡ tag_of o
  unfolding classify
  tag_of-classify none v o h = ground arith
  tag_of-classify (some t) v o h = ground (arith, eq_iff t "task", eq_iff t "inputRequired")

  -- Whatever is read successfully is of the kind that the discriminator names: the textual
  -- `resultType` is absent, "task" or "inputRequired" for the three kinds.
  pub result_type_of_deserialize :
      (v : Value) (o : ToolCallOutcome)
      → deserialize methods payloads debug v ≡ ok o
      → result_type methods v ≡ tag_of o
  unfolding deserialize
  result_type_of_deserialize v o h = tag_of-classify (result_type methods v) v o h

  -- The payload of an outcome is what serde reads for its kind.
  abbrev pub ReadsPayload : ToolCallOutcome → Value → Type 0
  ReadsPayload (content r) v = payloads.content_serde.from_value v ≡ ok r
  ReadsPayload (task r) v = payloads.task_serde.from_value v ≡ ok r
  ReadsPayload (input_required r) v = payloads.input_required_serde.from_value v ≡ ok r

  made-ReadsPayload :
      {A : Type 0} (kind : A → ToolCallOutcome) (v : Value) (r : Result A String)
      (o : ToolCallOutcome)
      → ((a : A) → r ≡ ok a → ReadsPayload (kind a) v)
      → map_ok kind r ≡ ok o
      → ReadsPayload o v
  made-ReadsPayload kind v (ok a) o reads h =
      subst (λ x. ReadsPayload x v) (ok_injective h) (reads a refl)
  made-ReadsPayload kind v (err e) o reads h = cc

  payload_of_classify :
      (t : Option String) (v : Value) (o : ToolCallOutcome)
      → classify methods payloads debug t v ≡ ok o
      → ReadsPayload o v
  unfolding classify
  payload_of_classify none v o h = made-ReadsPayload content v _ o (λ a q. q) h
  payload_of_classify (some t) v o h = elim (Bool-cases (t == "task")) [
    | inl is_task ↦ made-ReadsPayload task v _ o (λ a q. q) (rw is_task at h)
    | inr other ↦ elim (Bool-cases (t == "inputRequired")) [
      | inl asks ↦ made-ReadsPayload input_required v _ o (λ a q. q) (rw (other, asks) at h)
      | inr unknown ↦ cc (rw (other, unknown) at h)
    ]
  ]

  classify_of_payload :
      (v : Value) (o : ToolCallOutcome)
      → ReadsPayload o v
      → classify methods payloads debug (tag_of o) v ≡ ok o
  unfolding classify
  classify_of_payload v (content r) h = rw h refl
  classify_of_payload v (task r) h = rw h refl
  classify_of_payload v (input_required r) h = rw h refl

  -- A value is read as an outcome exactly if its textual `resultType` is the one of the outcome's
  -- kind (none for direct content, "task" or "inputRequired" for the others) and serde reads the
  -- outcome's payload from it: no payload is taken for one of another kind, and under any other
  -- `resultType` nothing is read.
  pub deserialize_iff :
      (v : Value) (o : ToolCallOutcome)
      → (deserialize methods payloads debug v ≡ ok o)
        ↔ ((result_type methods v ≡ tag_of o) × ReadsPayload o v)
  unfolding deserialize
  deserialize_iff v o = (
    λ h. (result_type_of_deserialize v o h, payload_of_classify (result_type methods v) v o h),
    λ (t, p). rw t (classify_of_payload v o p),
  )
