-- ===== src/Operation/Worker/Stages/Review.antt =====
-- operations/service.py: the stage REVIEW, which normalizes the changes or rejects them.
use craftcontrol.Base.{◌≡◌, refl, some, [], ◌∷◌, String, arith, inl, inr, List-cases, Option-cases}
use craftcontrol.Base.Dict.{Dict, lookup}
use craftcontrol.Base.Value.{Value, arr}
use craftcontrol.Schema.{Conversions, Validated, valid, invalid, validate_value}
use craftcontrol.Schema.Tables.{settings, property_names}
use craftcontrol.Operation.Lifecycle.{review}
use craftcontrol.Operation.Worker.State.{Environment, Reply, answer, broken, World, save}
use craftcontrol.Operation.Worker.Observe.{begin_step, complete_step}
use craftcontrol.Operation.Worker.Stages.{
  unverifiable, normalize, add_validated, reject_unverifiable, settle_review, review_stage,
  with_world, set_changes, keys, text_items,
}
use craftcontrol.Operation.Worker.Stages.Post.{
  IsReviewed, Active, Triple, Post, sequence, save-Active, IsActive-IsSound,
}
use craftcontrol.Operation.Worker.Stages.Steps.{
  fail_out-Post, begin_step-Active, complete_step-Active,
}

-- Nothing is known of the changes.
abbrev pub Any : Dict Value → Type 0
Any d = Unit

abbrev normal_changes : Reply (Dict Value × Dict Value) → Dict Value
normal_changes (answer (good, bad)) = good
normal_changes (broken e) = []

add_validated-IsReviewed :
    (key : String) (v : Validated) (r : Reply (Dict Value × Dict Value))
    → (name : String) × (lookup key property_names ≡ some name)
    → IsReviewed (normal_changes r)
    → IsReviewed (normal_changes (add_validated key v r))
add_validated-IsReviewed key (valid s) (answer (g, b)) (name, named) rest =
    ((name, s, named, refl), rest)
add_validated-IsReviewed key (invalid e) (answer (g, b)) named rest = rest
add_validated-IsReviewed key _ (broken e) named rest = tt

normalize-IsReviewed :
    (p : Conversions) (d : Dict Value)
    → unverifiable d ≡ []
    → IsReviewed (normal_changes (normalize p d))
unfolding unverifiable normalize
normalize-IsReviewed p [] u = tt
normalize-IsReviewed p ((key, value) ∷ d) u = elim (Option-cases (lookup key property_names)) [
  | inl unnamed ↦ ground (arith, u, unnamed)
  | inr (name, named) ↦ elim (Option-cases (lookup key settings)) [
    | inl missing ↦ rw (missing, IsReviewed) tt
    | inr (definition, found) ↦
        rw (found, IsReviewed)
          (add_validated-IsReviewed key (validate_value p definition value) (normalize p d)
            (name, named) (normalize-IsReviewed p d (ground (arith, u, named))))
  ]
]

module _ (env : Environment) where
  -- Every change has a property.
  abbrev IsVerifiable : World → Type 0
  IsVerifiable w = Active Any w × (unverifiable w.operation.requested_changes ≡ [])

  reject_unverifiable-IsVerifiable :
      Triple env
        (Active Any)
        (with_world (λ w. reject_unverifiable env (unverifiable w.operation.requested_changes)))
        (λ _. IsVerifiable)
  reject_unverifiable-IsVerifiable w a =
      elim (List-cases (unverifiable w.operation.requested_changes)) [
        | inl none_left ↦ rw none_left (a, none_left)
        | inr (name, names, p) ↦
            rw p (fail_out-Post env (λ _. IsVerifiable) review _ _ w a.well_formed)
      ]

  settle_review-Active :
      (r : Reply (Dict Value × Dict Value)) (w : World)
      → IsReviewed (normal_changes r)
      → Active Any w
      → Post env (λ _. Active IsReviewed) (settle_review env r w).0 (settle_review env r w).1
  settle_review-Active (broken e) w n a = IsActive-IsSound env w.operation w.table a
  settle_review-Active (answer (good, [])) w n a =
      sequence env (λ _. Active IsReviewed) (λ _. Active IsReviewed) (save env)
        (λ _. complete_step env review (some (("changes", arr (text_items (keys good))) ∷ [])))
        (save-Active env) (λ _. complete_step-Active env review _) (set_changes good w)
        (record { well_formed = ground (arith, a.well_formed); running = a.running; changes = n })
  settle_review-Active (answer (good, entry ∷ bad)) w n a =
      fail_out-Post env (λ _. Active IsReviewed) review _ _ w a.well_formed

  pub review_stage-Active : Triple env (Active Any) (review_stage env) (λ _. Active IsReviewed)
  unfolding review_stage
  review_stage-Active =
      sequence env (λ _. Active Any) (λ _. Active IsReviewed) (begin_step env review) _
        (begin_step-Active env review)
        (λ _.
          sequence env (λ _. IsVerifiable) (λ _. Active IsReviewed) _ _
            reject_unverifiable-IsVerifiable
            (λ _ w (a, u).
              settle_review-Active _ w
                (normalize-IsReviewed env.conversions w.operation.requested_changes u) a))
