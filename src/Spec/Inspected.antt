-- ===== src/Spec/Inspected.antt =====
-- What inspectResponseFromInfo (adapterhost/spec.go) makes of an InspectInfo.
use criteria_go_adapter_sdk.Base.{
  String, ◌≡◌, refl, ◌⊎◌, inl, inr, List, [], ◌∷◌, Option, none, some, Result, ok, err, ◌>>=◌,
  Result-cases,
}
use criteria_go_adapter_sdk.Wire.{WireInspectField, InspectResponse}
use criteria_go_adapter_sdk.Spec.{
  ServiceError, inspect_field, inspect_extra, InspectField, InspectInfo,
}
use criteria_go_adapter_sdk.Spec.Verbs.{
  inspect_fields, inspect_extra_of, inspect_response_from_info,
}

module _ {Any Value Struct : Type 0} (new_value : Any → Result String Value)
    (new_struct : List (String × Any) → Result String Struct) where
  -- The fields in order, each with its key, its label and its encoded value.
  abbrev pub SameFields : List (InspectField Any) → List (WireInspectField Value) → Type 0
  SameFields [] [] = Unit
  SameFields [] (w ∷ ws) = ⊥
  SameFields (f ∷ fs) [] = ⊥
  SameFields (f ∷ fs) (w ∷ ws) =
      ((w.key ≡ f.key) × ((w.label ≡ f.label) × (new_value f.value ≡ ok w.value)))
      × SameFields fs ws

  -- No extra values are left out, others are encoded together.
  abbrev pub SameExtra : List (String × Any) → Option Struct → Type 0
  SameExtra [] o = o ≡ none
  SameExtra (x ∷ xs) o = (s : Struct) × (new_struct (x ∷ xs) ≡ ok s) × (o ≡ some s)

  pub record Encodes (info : InspectInfo Any) (r : InspectResponse Value Struct) : Type 0 where
    pub current_step : r.current_step ≡ info.current_step
    pub pending : r.pending_permission_count ≡ info.pending_permissions
    pub last_activity : r.last_activity_at ≡ info.last_activity
    pub fields : SameFields info.fields r.fields
    pub extra : SameExtra info.extra r.extra

  -- A field's value cannot be encoded, and the error names its key and the cause.
  abbrev pub FieldFails : List (InspectField Any) → ServiceError → Type 0
  FieldFails [] e = ⊥
  FieldFails (f ∷ fs) e =
      ((cause : String) × (new_value f.value ≡ err cause) × (e ≡ inspect_field f.key cause))
      ⊎ FieldFails fs e

  abbrev pub ExtraFails : List (String × Any) → ServiceError → Type 0
  ExtraFails xs e = (cause : String) × (new_struct xs ≡ err cause) × (e ≡ inspect_extra cause)

  -- The answer shows all of the info, or is the error of a part that cannot be encoded.
  abbrev pub Encoded : InspectInfo Any → Result ServiceError (InspectResponse Value Struct) → Type 0
  Encoded info (ok r) = Encodes info r
  Encoded info (err e) = FieldFails info.fields e ⊎ ExtraFails info.extra e

  abbrev FieldsAs :
      List (InspectField Any) → Result ServiceError (List (WireInspectField Value)) → Type 0
  FieldsAs fs (ok ws) = SameFields fs ws
  FieldsAs fs (err e) = FieldFails fs e

  abbrev ExtraAs : List (String × Any) → Result ServiceError (Option Struct) → Type 0
  ExtraAs xs (ok o) = SameExtra xs o
  ExtraAs xs (err e) = ExtraFails xs e

  field-FieldsAs :
      (f : InspectField Any) (fs : List (InspectField Any)) (v : Value)
      (r : Result ServiceError (List (WireInspectField Value)))
      → new_value f.value ≡ ok v
      → FieldsAs fs r
      → FieldsAs
          (f ∷ fs)
          (r >>= λ rest. ok (record { key = f.key; label = f.label; value = v } ∷ rest))
  field-FieldsAs f fs v (ok ws) e h = ((refl, (refl, e)), h)
  field-FieldsAs f fs v (err x) e h = inr h

  inspect_fields-FieldsAs :
      (fs : List (InspectField Any)) → FieldsAs fs (inspect_fields new_value new_struct fs)
  inspect_fields-FieldsAs [] = tt
  inspect_fields-FieldsAs (f ∷ fs) = elim (Result-cases (new_value f.value)) [
    | inl (v, e) ↦ rw e (
        field-FieldsAs f fs v (inspect_fields new_value new_struct fs) e
          (inspect_fields-FieldsAs fs))
    | inr (cause, e) ↦ rw e (inl (cause, e, refl))
  ]

  inspect_extra_of-ExtraAs :
      (xs : List (String × Any)) → ExtraAs xs (inspect_extra_of new_value new_struct xs)
  inspect_extra_of-ExtraAs [] = refl
  inspect_extra_of-ExtraAs (x ∷ xs) = elim (Result-cases (new_struct (x ∷ xs))) [
    | inl (s, e) ↦ rw e (s, e, refl)
    | inr (cause, e) ↦ rw e (cause, e, refl)
  ]

  both-Encoded :
      (info : InspectInfo Any) (fields : Result ServiceError (List (WireInspectField Value)))
      (extra : Result ServiceError (Option Struct))
      → FieldsAs info.fields fields
      → ExtraAs info.extra extra
      → Encoded info (
          fields >>= λ fs. extra >>= λ x. ok (record {
            current_step = info.current_step;
            pending_permission_count = info.pending_permissions;
            last_activity_at = info.last_activity;
            fields = fs;
            extra = x;
          }))
  both-Encoded info (err e) extra h k = inl h
  both-Encoded info (ok fs) (err e) h k = inr k
  both-Encoded info (ok fs) (ok x) h k = record {
    current_step = refl;
    pending = refl;
    last_activity = refl;
    fields = h;
    extra = k;
  }

  pub inspect_response_from_info-Encoded :
      (info : InspectInfo Any) → Encoded info (inspect_response_from_info new_value new_struct info)
  unfolding inspect_response_from_info
  inspect_response_from_info-Encoded info =
      both-Encoded info (inspect_fields new_value new_struct info.fields)
        (inspect_extra_of new_value new_struct info.extra) (inspect_fields-FieldsAs info.fields)
        (inspect_extra_of-ExtraAs info.extra)
