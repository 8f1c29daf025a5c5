-- ===== src/Platform/Replay.antt =====
-- pkg/platform/lti/middleware/replay.go: the cache of single-use values, and the handlers that it
-- guards. Times are integers on one scale, in the order of the requests' locks.
pub mod SingleUse
pub mod Expiry
use Prim.Native.String.{◌++◌ as ◌<>◌}
use mindengage_lms.Prelude.{
  ℕ, suc, ◌+◌, ◌%◌, ◌^◌, ◌==◌, ℤ, pos, ltb_ℤ, leb_ℤ, add_ℤ, String, Bool, true, false, not, ◌||◌,
  Option, none, some, List, [], ◌∷◌, GoMap, lookup, insert, Result, ok, err, if◌then◌else◌,
}
use mindengage_lms.Strings.{Unicode, trim_space, to_lower, is_empty}
use mindengage_lms.Platform.Http.{Request, AccessClaims, Outcome, refused, served, Handler, get}

-- InMemoryReplay: the entries, and the counters of type uint64.
pub record Cache : Type 0 where
  pub entries : GoMap ℤ
  pub use_count : ℕ
  pub purge_n : ℕ

unfoldable pub new_in_memory_replay : (purge_every : ℤ) → Cache
new_in_memory_replay n = record {
  entries = [];
  use_count = 0;
  purge_n = elim n [ pos (suc k) ↦ suc k | _ ↦ 1024 ];
}

-- purgeLocked: only the entries that last longer than now are kept.
unfoldable pub purge_entries : ℤ → GoMap ℤ → GoMap ℤ
purge_entries now [] = []
purge_entries now ((k, until) ∷ m) =
    let rest = purge_entries now m in if ltb_ℤ now until then (k, until) ∷ rest else rest

-- An entry that lasts longer than now.
abbrev pub lives : ℤ → Option ℤ → Bool
lives now none = false
lives now (some until) = ltb_ℤ now until

-- The new count of calls, and the entries after the purge that every purge_n-th call makes.
abbrev pub next_count : Cache → ℕ
next_count c = (c.use_count + 1) % 2 ^ 64

unfoldable pub kept_entries : ℤ → Cache → GoMap ℤ
unfolding purge_entries
kept_entries now c =
    if next_count c % c.purge_n == 0 then purge_entries now c.entries else c.entries

-- Use, after the key was built.
unfoldable pub use_key : ℤ → String → ℤ → Cache → Bool × Cache
unfolding kept_entries lookup insert
use_key now k ttl c =
    let kept = kept_entries now c in
    let seen = lives now (lookup k kept) in
    (
      not seen,
      record c {
        use_count = next_count c;
        entries = if seen then kept else insert k (add_ℤ now ttl) kept;
      },
    )

unfoldable pub replay_key : Unicode → (kind value : String) → Option String
unfolding trim_space to_lower
replay_key u kind value =
    let k = trim_space (to_lower u kind) in
    let v = trim_space value in if is_empty k || is_empty v then none else some ((k <> "|") <> v)

-- InMemoryReplay.Use
unfoldable pub use_value :
    Unicode → ℤ → (kind value : String) → ℤ → Cache → Result String Bool × Cache
use_value u now kind value ttl c = elim (replay_key u kind value) [
  | none ↦ (err "replay: kind and value are required", c)
  | some k ↦ let (fresh, c') = use_key now k ttl c in (ok fresh, c')
]

-- The interface ReplayProtector at the time of the request.
abbrev pub Protector : Type 0 → Type 0
Protector S = (kind value : String) → ℤ → S → Result String Bool × S

module _ {S A : Type 0} where
  -- What each of the handlers does once it has the value.
  unfoldable pub guard_use :
      Protector S
      → (kind value : String) → (ttl : ℤ) → (status : ℕ) → (message : String) → Handler S A
      → Handler S A
  guard_use cache kind value ttl status message next r s =
      let (res, s') = cache kind value ttl s in
      elim res [
        | err e ↦ (refused 500 "server error: replay check", s')
        | ok true ↦ next r s'
        | ok false ↦ (refused status message, s')
      ]

  unfoldable pub require_nonce : Protector S → ℤ → Handler S A → Handler S A
  unfolding guard_use get trim_space
  require_nonce cache ttl next r s =
      let in_form = get "nonce" r.form in
      let nonce = trim_space (if is_empty in_form then get "nonce" r.query else in_form) in
      if is_empty nonce
      then (refused 400 "bad request: missing nonce", s)
      else guard_use cache "nonce" nonce ttl 401 "unauthorized: nonce replay detected" next r s

  unfoldable pub require_idempotency_key : Protector S → String → ℤ → Handler S A → Handler S A
  unfolding guard_use get trim_space
  require_idempotency_key cache header_name ttl next r s =
      let hdr = if is_empty header_name then "Idempotency-Key" else header_name in
      let key = trim_space (get hdr r.headers) in
      if is_empty key
      then (refused 400 ("bad request: missing " <> hdr), s)
      else guard_use cache "idempotency" key ttl 409 "conflict: idempotency key reuse" next r s

  unfoldable pub require_unique_jti : Protector S → ℤ → Handler S A → Handler S A
  unfolding guard_use trim_space
  require_unique_jti cache ttl next r s = elim r.claims [
    | none ↦ (refused 403 "forbidden: missing auth context", s)
    | some claims ↦
        let jti = trim_space claims.jti in
        if is_empty jti
        then next r s
        else guard_use cache "jti" jti ttl 401 "unauthorized: token replay detected" next r s
  ]

  unfoldable pub require_jti_strict : Protector S → ℤ → Handler S A → Handler S A
  unfolding guard_use trim_space
  require_jti_strict cache ttl next r s = elim r.claims [
    | none ↦ (refused 403 "forbidden: missing auth context", s)
    | some claims ↦
        let jti = trim_space claims.jti in
        if is_empty jti
        then (refused 400 "bad request: missing jti", s)
        else guard_use cache "jti" jti ttl 401 "unauthorized: token replay detected" next r s
  ]

-- NoopReplay.Use of pkg/platform/lti/replay.go.
abbrev pub noop_replay : {S : Type 0} → Protector S
noop_replay kind value ttl s = (ok true, s)
