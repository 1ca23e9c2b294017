-- ===== src/Data/Results.antt =====
-- `ProcessResult`. Its constructor runs `_sync_text_and_payload`; a bare record is what the
-- validator is given.
use unified_runtime_primitiv.Base.{String, Option, none, some, List, []}
use unified_runtime_primitiv.Data.Enums.{LastTaskOutcome, FailureCategory}
use unified_runtime_primitiv.Data.Values.{Fields, end}

pub record ProcessResultPayload : Type 0 where
  pub text : String

pub record ProcessResult : Type 0 where
  pub outcome : LastTaskOutcome
  pub category : FailureCategory
  pub text : Option String
  pub artifacts : List Fields
  pub metadata : Fields
  pub payload : Option ProcessResultPayload

-- The two fields that the validator looks at, after it.
unfoldable pub sync_pair :
    Option String → Option ProcessResultPayload → Option String × Option ProcessResultPayload
sync_pair none (some payload) = (some payload.text, some payload)
sync_pair (some text) none = (some text, some (record { text = text }))
sync_pair none none = (none, none)
sync_pair (some text) (some payload) = (some text, some payload)

unfoldable pub sync_text_and_payload : ProcessResult → ProcessResult
unfolding sync_pair
sync_text_and_payload result =
    let (text, payload) = sync_pair result.text result.payload in
    record result { text = text; payload = payload }

-- `ProcessResult(outcome=…, category=…, text=…, payload=…)`: no artifacts and no metadata.
unfoldable pub make_result :
    LastTaskOutcome → FailureCategory → Option String → Option ProcessResultPayload → ProcessResult
unfolding sync_text_and_payload
make_result outcome category text payload = sync_text_and_payload (record {
  outcome = outcome;
  category = category;
  text = text;
  artifacts = [];
  metadata = end;
  payload = payload;
})
