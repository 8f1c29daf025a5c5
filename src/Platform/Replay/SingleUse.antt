-- ===== src/Platform/Replay/SingleUse.antt =====
-- pkg/platform/lti/middleware/replay.go: when a value is accepted, in any sequence of calls of Use.
use mindengage_lms.Prelude.{
  ◌%◌, ◌==◌, ℤ, ◌<ℤ◌, ltb_ℤ, add_ℤ, String, Bool, true, false, not, ◌≡◌, refl, sym, ap, ◌∙◌, inl,
  inr, Option, none, some, List, [], ◌∷◌, All, GoMap, lookup, insert, lookup-insert, str_eq_cases,
  str_eq_refl, Bool-cases, Option-cases, ok_inj, Result, ok, err, if◌then◌else◌, arith,
}
use mindengage_lms.Strings.{Unicode}
use mindengage_lms.Platform.Replay.{
  Cache, lives, next_count, kept_entries, purge_entries, use_key, replay_key, use_value,
}

-- A call of Use, with the time at which it holds the lock.
pub record Call : Type 0 where
  pub now : ℤ
  pub kind : String
  pub value : String
  pub ttl : ℤ

module _ (u : Unicode) where
  abbrev pub use_call : Call → Cache → Result String Bool × Cache
  use_call call c = use_value u call.now call.kind call.value call.ttl c

  abbrev pub key_of : Call → Option String
  key_of call = replay_key u call.kind call.value

  -- The cache after a sequence of calls.
  unfoldable pub after_calls : List Call → Cache → Cache
  after_calls [] c = c
  after_calls (call ∷ calls) c = after_calls calls (use_call call c).1

lookup-purge_entries :
    (now : ℤ) (k : String) (until : ℤ) (m : GoMap ℤ)
    → lookup k m ≡ some until
    → ltb_ℤ now until ≡ true
    → lookup k (purge_entries now m) ≡ some until
unfolding lookup purge_entries
lookup-purge_entries now k until [] h l = cc
lookup-purge_entries now k until ((j, t) ∷ m) h l =
    ground (arith, lookup-purge_entries now k until m)

lookup-kept_entries :
    (now : ℤ) (k : String) (until : ℤ) (c : Cache)
    → lookup k c.entries ≡ some until
    → ltb_ℤ now until ≡ true
    → lookup k (kept_entries now c) ≡ some until
unfolding kept_entries
lookup-kept_entries now k until c h l = elim (Bool-cases (next_count c % c.purge_n == 0)) [
  | inl e ↦ rw e (lookup-purge_entries now k until c.entries h l)
  | inr e ↦ rw e h
]

-- What the entries are after a call, for the entries that it kept.
abbrev stored : ℤ → String → ℤ → GoMap ℤ → GoMap ℤ
stored now k ttl kept = if lives now (lookup k kept) then kept else insert k (add_ℤ now ttl) kept

stored_keeps :
    (now : ℤ) (j k : String) (ttl until : ℤ) (kept : GoMap ℤ)
    → lookup k kept ≡ some until
    → ltb_ℤ now until ≡ true
    → lookup k (stored now j ttl kept) ≡ some until
stored_keeps now j k ttl until kept h l = elim (Bool-cases (lives now (lookup j kept))) [
  | inl e ↦ rw e h
  | inr e ↦ elim (str_eq_cases j k) [
    | inl (b, p) ↦ absurd (cc (ap (λ i. lives now (lookup i kept)) p, ap (lives now) h))
    | inr (b, p) ↦ rw e (lookup-insert j k (add_ℤ now ttl) kept ∙ rw b h)
  ]
]

-- An entry that outlasts the call stays as it is.
use_key_keeps :
    (now : ℤ) (j k : String) (ttl until : ℤ) (c : Cache)
    → lookup k c.entries ≡ some until
    → ltb_ℤ now until ≡ true
    → lookup k (use_key now j ttl c).1.entries ≡ some until
unfolding use_key
use_key_keeps now j k ttl until c h l =
    stored_keeps now j k ttl until (kept_entries now c) (lookup-kept_entries now k until c h l) l

-- A call that was accepted has left its expiry.
use_key_stores :
    (now : ℤ) (k : String) (ttl : ℤ) (c : Cache)
    → (use_key now k ttl c).0 ≡ true
    → lookup k (use_key now k ttl c).1.entries ≡ some (add_ℤ now ttl)
unfolding use_key
use_key_stores now k ttl c h = elim (Bool-cases (lives now (lookup k (kept_entries now c)))) [
  | inl e ↦ absurd (cc (ap not e))
  | inr e ↦ rw e (lookup-insert k k (add_ℤ now ttl) (kept_entries now c) ∙ rw (str_eq_refl k) refl)
]

-- An entry that lasts refuses its value.
use_key_refuses :
    (now : ℤ) (k : String) (ttl until : ℤ) (c : Cache)
    → lookup k c.entries ≡ some until
    → ltb_ℤ now until ≡ true
    → (use_key now k ttl c).0 ≡ false
unfolding use_key
use_key_refuses now k ttl until c h l =
    ap (λ o. not (lives now o)) (lookup-kept_entries now k until c h l) ∙ ap not l

pub use_value_key :
    (u : Unicode) (now : ℤ) (kind value : String) (ttl : ℤ) (c : Cache) {k : String}
    → replay_key u kind value ≡ some k
    → use_value u now kind value ttl c ≡ (ok (use_key now k ttl c).0, (use_key now k ttl c).1)
unfolding use_value
use_value_key u now kind value ttl c h = rw (h, use_value)

pub use_value_no_key :
    (u : Unicode) (now : ℤ) (kind value : String) (ttl : ℤ) (c : Cache)
    → replay_key u kind value ≡ none
    → use_value u now kind value ttl c ≡ (err "replay: kind and value are required", c)
unfolding use_value
use_value_no_key u now kind value ttl c h = rw (h, use_value)

module _ (u : Unicode) where
  use_call_keeps :
      (call : Call) (k : String) (until : ℤ) (c : Cache)
      → lookup k c.entries ≡ some until
      → call.now <ℤ until
      → lookup k (use_call u call c).1.entries ≡ some until
  use_call_keeps call k until c h l = elim (Option-cases (key_of u call)) [
    | inl e ↦
        ap (λ r. lookup k r.1.entries)
          (use_value_no_key u call.now call.kind call.value call.ttl c e)
        ∙ h
    | inr (j, e) ↦
        ap (λ r. lookup k r.1.entries) (use_value_key u call.now call.kind call.value call.ttl c e)
        ∙ use_key_keeps call.now j k call.ttl until c h (ground arith)
  ]

  after_calls_keeps :
      (calls : List Call) (k : String) (until : ℤ) (c : Cache)
      → lookup k c.entries ≡ some until
      → All (λ (call : Call). call.now <ℤ until) calls
      → lookup k (after_calls u calls c).entries ≡ some until
  unfolding after_calls
  after_calls_keeps [] k until c h t = h
  after_calls_keeps (call ∷ calls) k until c h t =
      after_calls_keeps calls k until (use_call u call c).1 (use_call_keeps call k until c h t.0)
        t.1

  -- A value that was accepted is refused while it lasts: whatever calls come between, at whatever
  -- times before the expiry, a later call with the same kind and value before the expiry finds it
  -- used. Kinds and values are compared as the cache does, kinds without case and outer spaces, values without
  -- outer spaces.
  pub use_value_once :
      (first later : Call) (between : List Call) (c : Cache)
      → key_of u later ≡ key_of u first
      → (use_call u first c).0 ≡ ok true
      → All (λ (call : Call). call.now <ℤ add_ℤ first.now first.ttl) between
      → later.now <ℤ add_ℤ first.now first.ttl
      → (use_call u later (after_calls u between (use_call u first c).1)).0 ≡ ok false
  use_value_once first later between c same h t l = elim (Option-cases (key_of u first)) [
    | inl e ↦ absurd (cc (use_value_no_key u first.now first.kind first.value first.ttl c e))
    | inr (k, e) ↦
        let used = use_value_key u first.now first.kind first.value first.ttl c e in
        let fresh : (use_key first.now k first.ttl c).0 ≡ true =
          ok_inj (ap (λ r. r.0) (sym used) ∙ h) in
        let entry =
          ap (λ r. lookup k r.1.entries) used ∙ use_key_stores first.now k first.ttl c fresh in
        let c' = after_calls u between (use_call u first c).1 in
        let kept =
          after_calls_keeps between k (add_ℤ first.now first.ttl) (use_call u first c).1 entry t in
        ap (λ r. r.0) (use_value_key u later.now later.kind later.value later.ttl c' (same ∙ e))
        ∙ ap ok (
            use_key_refuses later.now k later.ttl (add_ℤ first.now first.ttl) c' kept
              (ground arith))
  ]
