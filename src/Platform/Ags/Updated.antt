-- ===== src/Platform/Ags/Updated.antt =====
-- pkg/platform/lti/ags/server.go: what PutLineItem writes.
use mindengage_lms.Prelude.{
  ℤ, String, false, ◌≡◌, refl, sym, ap, ◌∙◌, inl, inr, Option, none, some, Result, ok, err,
  run_cases, Result-cases, Bool-cases, arith,
}
use mindengage_lms.Strings.{trim_space}
use mindengage_lms.Float.{Float64, zero_f}
use mindengage_lms.Platform.Http.{Request, Net, Outcome, refused, served}
use mindengage_lms.Platform.Bearer.Admits.{is_refusal, IsRefusal}
use mindengage_lms.Platform.Ags.{
  LineItem, StorageError, not_found, failed, Server, Reply, found_item, require_tenant,
  absolute_line_item_id_from_path, write_storage_err, answer,
}
use mindengage_lms.Platform.Ags.Items.{
  ItemChange, changed, or_old, is_refused_maximum, change_item, put_line_item,
}

-- A text after a change: the old one where the body leaves it out, else that of the body, trimmed.
abbrev pub IsText : Option String → (old new : String) → Type 0
IsText none old new = new ≡ old
IsText (some t) old new = new ≡ trim_space t

-- The maximum after a change: the old one where the body leaves it out, else that of the body, which is
-- positive.
abbrev pub IsMaximum : {F : Type 0} → (F → Type 0) → Option F → (old new : F) → Type 0
IsMaximum positive none old new = new ≡ old
IsMaximum positive (some m) old new = (new ≡ m) × positive m

-- What a change does to an item: its id, context and creation stay, each field is the trimmed new
-- one or the old one, and so is the maximum.
pub record IsChange {F : Type 0} (positive : F → Type 0) (now : ℤ) (change : ItemChange F)
    (old new : LineItem F) : Type 0 where
  pub same_id : new.id ≡ old.id
  pub same_context : new.context_id ≡ old.context_id
  pub same_creation : new.created_at ≡ old.created_at
  pub new_label : IsText change.label old.label new.label
  pub new_resource : IsText change.resource_id old.resource_id new.resource_id
  pub new_link : IsText change.resource_link_id old.resource_link_id new.resource_link_id
  pub new_maximum : IsMaximum positive change.score_maximum old.score_maximum new.score_maximum
  pub new_time : new.updated_at ≡ now

changed-IsText : (o : Option String) (old : String) → IsText o old (changed o old)
changed-IsText none old = refl
changed-IsText (some t) old = refl

module _ {F S : Type 0} ⦃fl : Float64 F⦄ (net : Net) (server : Server F S) where
  abbrev pub Positive : F → Type 0
  Positive m = fl.le m zero_f ≡ false

  change_item-IsChange :
      (change : ItemChange F) (old : LineItem F)
      → is_refused_maximum net server change.score_maximum ≡ false
      → IsChange Positive server.now change old (change_item net server change old)
  unfolding change_item
  change_item-IsChange change old h = record {
    same_id = refl;
    same_context = refl;
    same_creation = refl;
    new_label = changed-IsText change.label old.label;
    new_resource = changed-IsText change.resource_id old.resource_id;
    new_link = changed-IsText change.resource_link_id old.resource_link_id;
    new_maximum = maximum change.score_maximum h;
    new_time = refl;
  }
    where
      maximum :
          (m : Option F)
          → is_refused_maximum net server m ≡ false
          → IsMaximum Positive m old.score_maximum (or_old m old.score_maximum)
      maximum none k = refl
      maximum (some x) k = (refl, k)

  not_answered :
      (o : Outcome (Reply F)) (s : S) {a : Reply F} {s' : S}
      → IsRefusal o
      → ◌≡◌ {A = Outcome (Reply F) × S} (o, s) (served a, s')
      → ⊥
  not_answered o s refusal h = cc (ap (λ p. is_refusal p.0) h, refusal)

  write_storage_err-IsRefusal : (e : StorageError) → IsRefusal (write_storage_err {F = F} e)
  unfolding write_storage_err
  write_storage_err-IsRefusal not_found = refl
  write_storage_err-IsRefusal (failed e) = refl

  answer-found_item :
      (m : Result StorageError (LineItem F) × S) {item : LineItem F} {s' : S}
      → answer found_item m ≡ (served (found_item item), s')
      → m ≡ (ok item, s')
  unfolding write_storage_err
  answer-found_item (ok item, s) h = cc
  answer-found_item (err not_found, s) h = absurd (cc (ap (λ p. p.0) h))
  answer-found_item (err (failed e), s) h = absurd (cc (ap (λ p. p.0) h))

  -- A PUT that answers with an item has got the item of its address, in the tenant of the request, and
  -- updated the storage once, with that item changed as the body says: its id, context and creation
  -- are kept, each text of the body replaces the old one, trimmed, and a maximum in the body, which is
  -- positive, replaces the old one.
  pub put_line_item-IsChange :
      (r : Request) (body : Result String (ItemChange F)) (s s' : S) (item : LineItem F)
      → put_line_item net server r body s ≡ (served (found_item item), s')
      → (tenant : String) × (change : ItemChange F) × (old new : LineItem F) × (between : S)
        × (require_tenant server r ≡ ok tenant)
        × (body ≡ ok change)
        × (server.store.get_line_item tenant (absolute_line_item_id_from_path net server r) s
            ≡ (ok old, between))
        × IsChange Positive server.now change old new
        × (server.store.update_line_item tenant new between ≡ (ok item, s'))
  unfolding put_line_item
  put_line_item-IsChange r body s s' item h = elim (Result-cases (require_tenant server r)) [
    | inr (e, t) ↦ absurd (ground arith)
    | inl (tenant, t) ↦ elim (Result-cases body) [
      | inr (e, b) ↦ absurd (ground arith)
      | inl (change, b) ↦
          elim (run_cases
            (server.store.get_line_item tenant (absolute_line_item_id_from_path net server r) s)) [
              | inr (e, between, g) ↦ absurd (
                  not_answered _ between (write_storage_err-IsRefusal e)
                    (sym (rw (put_line_item, t, b, g, g) refl) ∙ h))
              | inl (old, between, g) ↦
                  elim (Bool-cases (is_refused_maximum net server change.score_maximum)) [
                    | inl m ↦ absurd (
                        not_answered (refused 400 "scoreMaximum must be > 0") between refl
                          (sym (rw (put_line_item, t, b, g, m, g) refl) ∙ h))
                    | inr m ↦ (
                      tenant,
                      change,
                      old,
                      change_item net server change old,
                      between,
                      t,
                      b,
                      g,
                      change_item-IsChange change old m,
                      answer-found_item _ (sym (rw (put_line_item, t, b, g, m, g) refl) ∙ h),
                    )
                  ]
            ]
    ]
  ]
