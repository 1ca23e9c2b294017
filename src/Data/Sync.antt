-- ===== src/Data/Sync.antt =====
-- What the validator of `ProcessResult` makes of the text and the legacy payload.
use unified_runtime_primitiv.Base.{
  ◌≡◌, refl, ap, ◌≢◌, ◌⊎◌, inl, inr, String, Option, none, some, [],
}
use unified_runtime_primitiv.Data.Enums.{LastTaskOutcome, FailureCategory}
use unified_runtime_primitiv.Data.Values.{end}
use unified_runtime_primitiv.Data.Results.{
  ProcessResult, ProcessResultPayload, sync_pair, sync_text_and_payload,
}

-- The text of an optional payload.
abbrev pub payload_text : Option ProcessResultPayload → Option String
payload_text none = none
payload_text (some p) = some p.text

-- A result with an outcome and a text alone, and the legacy payload that goes with it.
abbrev pub plain_result : LastTaskOutcome → String → ProcessResult
plain_result outcome text = record {
  outcome = outcome;
  category = FailureCategory.none;
  text = some text;
  artifacts = [];
  metadata = end;
  payload = some (record { text = text });
}

-- Either both fields are absent, or both are there.
abbrev pub IsSynced : Option String → Option ProcessResultPayload → Type 0
IsSynced none none = Unit
IsSynced (some t) (some p) = Unit
IsSynced none (some p) = ⊥
IsSynced (some t) none = ⊥

-- What the validator promises of a pair and of the pair that it makes of it.
abbrev Harmonized :
    Option String
    → Option ProcessResultPayload
    → Option String
    → Option ProcessResultPayload
    → Type 0
Harmonized t p t' p' =
    IsSynced t' p'
    × ((t ≡ none) ⊎ (t' ≡ t))
    × ((p ≡ none) ⊎ (p' ≡ p))
    × ((t ≢ none) × (p ≢ none) ⊎ (t' ≡ payload_text p'))
    × (sync_pair t' p' ≡ (t', p'))

sync_pair-Harmonized :
    (t : Option String) (p : Option ProcessResultPayload)
    → Harmonized t p (sync_pair t p).0 (sync_pair t p).1
unfolding sync_pair
sync_pair-Harmonized none none = (tt, inl refl, inl refl, inr refl, refl)
sync_pair-Harmonized none (some p) = (tt, inl refl, inr refl, inr refl, refl)
sync_pair-Harmonized (some t) none = (tt, inr refl, inl refl, inr refl, refl)
sync_pair-Harmonized (some t) (some p) = (tt, inr refl, inr refl, inl (λ e. cc, λ e. cc), refl)

-- After validation a result has a text exactly when it has a payload. A text or payload that was
-- given is kept; unless both were given, the text is that of the payload. Outcome, category,
-- artifacts and metadata stay, and a second validation changes nothing.
pub sync_harmonizes :
    (r : ProcessResult)
    → let s = sync_text_and_payload r in
      IsSynced s.text s.payload
      × ((r.text ≡ none) ⊎ (s.text ≡ r.text))
      × ((r.payload ≡ none) ⊎ (s.payload ≡ r.payload))
      × ((r.text ≢ none) × (r.payload ≢ none) ⊎ (s.text ≡ payload_text s.payload))
      × (s.outcome ≡ r.outcome)
      × (s.category ≡ r.category)
      × (s.artifacts ≡ r.artifacts)
      × (s.metadata ≡ r.metadata)
      × (sync_text_and_payload s ≡ s)
unfolding sync_text_and_payload
sync_harmonizes r =
    let (synced, text_kept, payload_kept, agree, again) = sync_pair-Harmonized r.text r.payload in
    (
      synced,
      text_kept,
      payload_kept,
      agree,
      refl,
      refl,
      refl,
      refl,
      ap
          (λ (q : Option String × Option ProcessResultPayload). record r {
            text = q.0;
            payload = q.1;
          })
          again,
    )
