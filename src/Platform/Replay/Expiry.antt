-- ===== src/Platform/Replay/Expiry.antt =====
-- pkg/platform/lti/middleware/replay.go: a value is accepted again once it has expired.
use mindengage_lms.Prelude.{
  ◌==◌, ℤ, ◌≤ℤ◌, ltb_ℤ, add_ℤ, String, true, false, not, ◌≡◌, refl, ap, ◌∙◌, inl, inr, some, List,
  [], ◌∷◌, All, GoMap, lookup, insert, str_eq, str_eq_cases, Bool-cases, Option-cases, ok, arith,
  ◌%◌,
}
use mindengage_lms.Strings.{Unicode}
use mindengage_lms.Platform.Replay.{
  Cache, lives, next_count, kept_entries, purge_entries, use_key, new_in_memory_replay,
}
use mindengage_lms.Platform.Replay.SingleUse.{
  Call, use_call, key_of, after_calls, use_value_key, use_value_no_key,
}

-- Every entry of the key ends by the time `t`.
abbrev Ends : String → ℤ → GoMap ℤ → Type 0
Ends k t m = All (λ (e : String × ℤ). str_eq e.0 k ≡ true → e.1 ≤ℤ t) m

purge_entries-Ends :
    (now : ℤ) (k : String) (t : ℤ) (m : GoMap ℤ) → Ends k t m → Ends k t (purge_entries now m)
unfolding purge_entries
purge_entries-Ends now k t [] h = tt
purge_entries-Ends now k t ((j, until) ∷ m) h = elim (Bool-cases (ltb_ℤ now until)) [
  | inl e ↦ rw e (h.0, purge_entries-Ends now k t m h.1)
  | inr e ↦ rw e (purge_entries-Ends now k t m h.1)
]

kept_entries-Ends :
    (now : ℤ) (k : String) (t : ℤ) (c : Cache) → Ends k t c.entries → Ends k t (kept_entries now c)
unfolding kept_entries
kept_entries-Ends now k t c h = elim (Bool-cases (next_count c % c.purge_n == 0)) [
  | inl e ↦ rw e (purge_entries-Ends now k t c.entries h)
  | inr e ↦ rw e h
]

insert-Ends :
    (j k : String) (until t : ℤ) (m : GoMap ℤ)
    → (str_eq j k ≡ true → until ≤ℤ t)
    → Ends k t m
    → Ends k t (insert j until m)
unfolding insert
insert-Ends j k until t [] n h = (n, tt)
insert-Ends j k until t ((i, v) ∷ m) n h = elim (Bool-cases (str_eq i j)) [
  | inl e ↦ rw e (n, h.1)
  | inr e ↦ rw e (h.0, insert-Ends j k until t m n h.1)
]

use_key-Ends :
    (now : ℤ) (j k : String) (ttl t : ℤ) (c : Cache)
    → (str_eq j k ≡ true → add_ℤ now ttl ≤ℤ t)
    → Ends k t c.entries
    → Ends k t (use_key now j ttl c).1.entries
unfolding use_key
use_key-Ends now j k ttl t c n h = elim (Bool-cases (lives now (lookup j (kept_entries now c)))) [
  | inl e ↦ rw e (kept_entries-Ends now k t c h)
  | inr e ↦
      rw e
        (insert-Ends j k (add_ℤ now ttl) t (kept_entries now c) n (kept_entries-Ends now k t c h))
]

lookup-Ends : (k : String) (t : ℤ) (m : GoMap ℤ) → Ends k t m → lives t (lookup k m) ≡ false
unfolding lookup
lookup-Ends k t [] h = refl
lookup-Ends k t ((j, until) ∷ m) h = elim (Bool-cases (str_eq j k)) [
  | inl e ↦ rw e (let l = h.0 e in ground arith)
  | inr e ↦ rw e (lookup-Ends k t m h.1)
]

module _ (u : Unicode) where
  use_call-Ends :
      (call : Call) (k : String) (t : ℤ) (c : Cache)
      → (key_of u call ≡ some k → add_ℤ call.now call.ttl ≤ℤ t)
      → Ends k t c.entries
      → Ends k t (use_call u call c).1.entries
  use_call-Ends call k t c n h = elim (Option-cases (key_of u call)) [
    | inl e ↦ rw (use_value_no_key u call.now call.kind call.value call.ttl c e) h
    | inr (j, e) ↦ rw (use_value_key u call.now call.kind call.value call.ttl c e) (
        use_key-Ends call.now j k call.ttl t c
          (λ b. elim (str_eq_cases j k) [ inl (_, p) ↦ n (e ∙ ap some p) | inr (f, _) ↦ cc ]) h)
  ]

  after_calls-Ends :
      (calls : List Call) (k : String) (t : ℤ) (c : Cache)
      → All (λ (call : Call). key_of u call ≡ some k → add_ℤ call.now call.ttl ≤ℤ t) calls
      → Ends k t c.entries
      → Ends k t (after_calls u calls c).entries
  unfolding after_calls
  after_calls-Ends [] k t c n h = h
  after_calls-Ends (call ∷ calls) k t c n h =
      after_calls-Ends calls k t (use_call u call c).1 n.1 (use_call-Ends call k t c n.0 h)

  -- A value is accepted, whatever calls a new cache has served, where none of those with its kind and
  -- value lasts beyond the time of the call: the cache refuses nothing for longer than asked, and
  -- nothing that it has not seen.
  pub use_value_again :
      (calls : List Call) (call : Call) (purge_every : ℤ) {k : String}
      → key_of u call ≡ some k
      → All (λ (c : Call). key_of u c ≡ some k → add_ℤ c.now c.ttl ≤ℤ call.now) calls
      → (use_call u call (after_calls u calls (new_in_memory_replay purge_every))).0 ≡ ok true
  unfolding new_in_memory_replay use_key
  use_value_again calls call purge_every {k} e n =
      let c = after_calls u calls (new_in_memory_replay purge_every) in
      let ends = after_calls-Ends calls k call.now (new_in_memory_replay purge_every) n tt in
      ap (λ r. r.0) (use_value_key u call.now call.kind call.value call.ttl c e)
      ∙ ap (λ b. ok (not b))
          (lookup-Ends k call.now (kept_entries call.now c)
            (kept_entries-Ends call.now k call.now c ends))
