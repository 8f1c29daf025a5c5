-- ===== src/Platform/Ags/Stored.antt =====
-- pkg/platform/lti/ags/server.go: an item that was posted can be read at its address.
use mindengage_lms.Prelude.{
  String, false, ◌≡◌, refl, sym, ap, ◌∙◌, inl, inr, Result, ok, err, Result-cases, Bool-cases,
  arith,
}
use mindengage_lms.Strings.{trim_space, is_empty}
use mindengage_lms.Float.{Float64, zero_f}
use mindengage_lms.Platform.Http.{Request, Net, get, served}
use mindengage_lms.Platform.Ags.{
  LineItem, StorageError, not_found, failed, Storage, Server, created, found_item, require_tenant,
  line_item_url, scheme_from_request, absolute_line_item_id_from_path, write_storage_err, answer,
}
use mindengage_lms.Platform.Ags.Items.{NewItem, item_to_create, post_line_item, get_line_item}

-- A storage in which an item that was created can be got by the id that it was given.
abbrev pub KeepsCreated : {F S : Type 0} → Storage F S → Type 0
KeepsCreated {F} {S} store =
    (tenant : String) (item item' : LineItem F) (s s' : S)
    → store.create_line_item tenant item s ≡ (ok item', s')
    → store.get_line_item tenant item.id s' ≡ (ok item', s')

module _ {F S : Type 0} ⦃fl : Float64 F⦄ (net : Net) (server : Server F S) where
  answer-created :
      (m : Result StorageError (LineItem F) × S) {item : LineItem F} {s' : S}
      → answer created m ≡ (served (created item), s')
      → m ≡ (ok item, s')
  unfolding write_storage_err
  answer-created (ok item, s) h = cc
  answer-created (err not_found, s) h = absurd (cc (ap (λ p. p.0) h))
  answer-created (err (failed e), s) h = absurd (cc (ap (λ p. p.0) h))

  post_line_item-created :
      (r : Request) (body : Result String (NewItem F)) (s s' : S) (item : LineItem F)
      → post_line_item net server r body s ≡ (served (created item), s')
      → (tenant : String) × (new : NewItem F) × (require_tenant server r ≡ ok tenant)
        × (body ≡ ok new)
        × (fl.le new.score_maximum zero_f ≡ false)
        × (is_empty (trim_space new.label) ≡ false)
        × (server.store.create_line_item tenant
              (item_to_create net server r (get "contextId" r.params) new)
              s
            ≡ (ok item, s'))
  unfolding post_line_item
  post_line_item-created r body s s' item h = elim (Result-cases (require_tenant server r)) [
    | inr (e, t) ↦ absurd (ground arith)
    | inl (tenant, t) ↦ elim (Bool-cases (is_empty (get "contextId" r.params))) [
      | inl c ↦ absurd (ground arith)
      | inr c ↦ elim (Result-cases body) [
        | inr (e, b) ↦ absurd (ground arith)
        | inl (new, b) ↦ elim (Bool-cases (is_empty (trim_space new.label))) [
          | inl l ↦ absurd (ground arith)
          | inr l ↦ elim (Bool-cases (fl.le new.score_maximum zero_f)) [
            | inl m ↦ absurd (ground arith)
            | inr m ↦ (
              tenant,
              new,
              t,
              b,
              m,
              l,
              answer-created _ (sym (rw (post_line_item, t, c, b, l, m) refl) ∙ h),
            )
          ]
        ]
      ]
    ]
  ]

  -- In a storage that keeps what is created, the item that a POST has answered with is the one that a
  -- GET then reads, where the GET is of the same tenant and host and names the new id.
  pub post_line_item-get_line_item :
      (r r' : Request) (body : Result String (NewItem F)) (s s' : S) (item : LineItem F)
      → KeepsCreated server.store
      → post_line_item net server r body s ≡ (served (created item), s')
      → require_tenant server r' ≡ require_tenant server r
      → scheme_from_request r' ≡ scheme_from_request r
      → r'.host ≡ r.host
      → get "id" r'.params ≡ server.new_id
      → get_line_item net server r' s' ≡ (served (found_item item), s')
  unfolding get_line_item absolute_line_item_id_from_path line_item_url item_to_create
  post_line_item-get_line_item r r' body s s' item keeps h same_tenant same_scheme same_host
        same_id =
      let (tenant, new, t, _, _, _, made) = post_line_item-created r body s s' item h in
      let kept = keeps tenant _ item s s' made in
      let address : absolute_line_item_id_from_path net server r'
          ≡ line_item_url net server r server.new_id =
        rw (absolute_line_item_id_from_path, same_id, line_item_url, same_scheme, same_host) refl in
      rw (get_line_item, same_tenant ∙ t, address, kept) refl
