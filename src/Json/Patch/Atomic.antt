-- ===== src/Json/Patch/Atomic.antt =====
-- `mux_json_apply_patch` of src/json.rs as steps from document to document.
use mathlib.Core.Path.{◌≡◌, refl, subst}
use mathlib.Core.Logic.{◌⊎◌, inl, inr}
use mathlib.Core.Bool.{true}
use mathlib.Core.Option.{some}
use mux_runtime.Common.{ok_inj, Result, ok, err, >>=-eq-ok, Bool-cases}
use mux_runtime.Json.Token.{JsonError, not_representable, patch_not_list}
use mux_runtime.Json.Value.{Value, Items, list, unit, nil, item}
use mux_runtime.Json.Equality.{Host}
use mux_runtime.Json.Patch.{
  apply_json_patch_operation, apply_operations, all_representable, mux_json_apply_patch,
}

pub Result-cases :
    (r : Result JsonError Value)
    → ((value : Value) × (r ≡ ok value)) ⊎ ((e : JsonError) × (r ≡ err e))
Result-cases (ok value) = inl (value, refl)
Result-cases (err e) = inr (e, refl)

module _ (host : Host) where
  -- The document after the operations, one after the other
  pub data Steps : Value → Items → Value → Type 0 where
    done : (document : Value) → Steps document nil document
    step :
        (document changed end : Value) (operation : Value) (rest : Items)
        → apply_json_patch_operation host document operation ≡ ok changed
        → Steps changed rest end
        → Steps document (item operation rest) end

  pub apply_operations-Steps :
      (document : Value) (operations : Items) {end : Value}
      → apply_operations host document operations ≡ ok end
      → Steps document operations end
  unfolding apply_operations
  apply_operations-Steps document nil {end} h =
      subst (λ d. Steps document nil d) (ok_inj h) (done document)
  apply_operations-Steps document (item operation rest) {end} h =
      let (changed, first, after) =
        >>=-eq-ok (apply_json_patch_operation host document operation) _ h in
      step document changed end operation rest first (apply_operations-Steps changed rest after)

  pub Steps-apply_operations :
      (document : Value) (operations : Items) (end : Value)
      → Steps document operations end
      → apply_operations host document operations ≡ ok end
  unfolding apply_operations
  Steps-apply_operations _ _ _ (done document) = refl
  Steps-apply_operations _ _ _ (step document changed end operation rest first steps) =
      rw first (Steps-apply_operations changed rest end steps)

  -- A patch that is a list of representable operations, and every one of which applies to the document
  -- that the ones before it left
  abbrev pub Applies : Value → Value → Value → Type 0
  Applies document patch end =
      (operations : Items) × (patch ≡ list operations)
      × (all_representable host operations ≡ true)
      × Steps document operations end

  pub Applies-mux_json_apply_patch :
      (document patch : Value) {end : Value}
      → Applies document patch end
      → mux_json_apply_patch host (some document) (some patch) ≡ (some end, ok unit)
  unfolding mux_json_apply_patch
  Applies-mux_json_apply_patch document patch {end} (operations, shape, representable, steps) =
      rw (shape, representable, Steps-apply_operations document operations end steps) refl

  -- A call that fails was on a patch that does not apply.
  pub err-Applies :
      (document patch : Value) {e : JsonError}
      → mux_json_apply_patch host (some document) (some patch) ≡ (some document, err e)
      → (end : Value) → ¬ Applies document patch end
  err-Applies document patch failed end applies =
      cc (failed, Applies-mux_json_apply_patch document patch applies)

  -- A patch either applies as a whole, when it is a list of representable operations of which each
  -- applies to what the one before left, or fails and leaves the document as it was.
  pub mux_json_apply_patch-atomic :
      (document patch : Value)
      → ((end : Value) × Applies document patch end
          × (mux_json_apply_patch host (some document) (some patch) ≡ (some end, ok unit)))
        ⊎ ((e : JsonError) × ((end : Value) → ¬ Applies document patch end)
            × (mux_json_apply_patch host (some document) (some patch) ≡ (some document, err e)))
  unfolding mux_json_apply_patch
  mux_json_apply_patch-atomic document (list operations) =
      elim (Bool-cases (all_representable host operations)) [
        | inl fine ↦ elim (Result-cases (apply_operations host document operations)) [
          | inl (end, applied) ↦ inl (
            end,
            (operations, refl, fine, apply_operations-Steps document operations applied),
            rw (fine, applied) refl,
          )
          | inr (e, failed) ↦
              let answer : mux_json_apply_patch host (some document) (some (list operations))
                  ≡ (some document, err e) =
                rw (fine, failed) refl in
              inr (e, err-Applies document (list operations) answer, answer)
        ]
        | inr unfit ↦
            let answer : mux_json_apply_patch host (some document) (some (list operations))
                ≡ (some document, err not_representable) =
              rw unfit refl in
            inr (not_representable, err-Applies document (list operations) answer, answer)
      ]
  mux_json_apply_patch-atomic document patch =
      inr (patch_not_list, err-Applies document patch refl, refl)
