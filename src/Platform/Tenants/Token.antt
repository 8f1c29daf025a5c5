-- ===== src/Platform/Tenants/Token.antt =====
-- pkg/platform/tenants/resolver.go: what the tenant of a request can be.
use Prim.Native.Char.{Char, code}
use mindengage_lms.Prelude.{
  ◌+◌, ◌≤◌, leb, String, Bool, true, false, not, ◌&&◌, ◌≡◌, refl, subst, ◌⊎◌, inl, inr, Result, ok,
  err, ok_inj, Bool-cases, &&-eq-true, if◌then◌else◌, arith,
}
use mindengage_lms.Strings.{Unicode, trim_space, to_lower, is_empty}
use mindengage_lms.Platform.Http.{Request, Net, get}
use mindengage_lms.Platform.Tenants.{
  Options, TenantError, bad_tenant_token, no_tenant, size, is_alphanumeric, is_label_char,
  all_chars, matches_token, sanitize_tenant, tenant_from_host, tenant_from_path, issuer_for,
  resolve,
}

abbrev pub Alphanumeric : Char → Type 0
Alphanumeric c = ((97 ≤ code c) × (code c ≤ 122)) ⊎ ((48 ≤ code c) × (code c ≤ 57))

abbrev pub AllChars : (Char → Type 0) → String → Type 0
AllChars P String.[] = Unit
AllChars P (String.◌∷◌ c s) = P c × AllChars P s

-- A label of a host name: 1 to 62 lower case letters, digits and hyphens, the first no hyphen.
abbrev pub IsLabel : String → Type 0
IsLabel String.[] = ⊥
IsLabel (String.◌∷◌ c s) =
    Alphanumeric c × AllChars (λ d. Alphanumeric d ⊎ (code d ≡ 45)) s × (size s + 1 ≤ 62)

is_alphanumeric_sound : (c : Char) → is_alphanumeric c ≡ true → Alphanumeric c
is_alphanumeric_sound c h = elim (Bool-cases (leb 97 (code c) && leb (code c) 122)) [
  | inl e ↦ inl (ground arith, ground arith)
  | inr e ↦ inr (ground arith, ground arith)
]

is_label_char_sound : (c : Char) → is_label_char c ≡ true → Alphanumeric c ⊎ (code c ≡ 45)
is_label_char_sound c h = elim (Bool-cases (is_alphanumeric c)) [
  | inl e ↦ inl (is_alphanumeric_sound c e)
  | inr e ↦ inr (ground arith)
]

all_chars_sound :
    (s : String)
    → all_chars is_label_char s ≡ true
    → AllChars (λ d. Alphanumeric d ⊎ (code d ≡ 45)) s
all_chars_sound String.[] h = tt
all_chars_sound (String.◌∷◌ c s) h =
    let (a, b) = &&-eq-true (is_label_char c) (all_chars is_label_char s) h in
    (is_label_char_sound c a, all_chars_sound s b)

matches_token-IsLabel : (s : String) → matches_token s ≡ true → IsLabel s
unfolding matches_token
matches_token-IsLabel String.[] h = cc
matches_token-IsLabel (String.◌∷◌ c s) h =
    let (ab, n) = &&-eq-true (is_alphanumeric c && all_chars is_label_char s) (leb (size s) 61) h in
    let (a, b) = &&-eq-true (is_alphanumeric c) (all_chars is_label_char s) ab in
    (is_alphanumeric_sound c a, all_chars_sound s b, ground arith)

-- A text that is empty or a label.
record EmptyOrLabel (s : String) : Type 0 where
  label : is_empty s ≡ false → IsLabel s

sanitize_tenant-IsLabel : (u : Unicode) (s : String) → EmptyOrLabel (sanitize_tenant u s)
unfolding sanitize_tenant
sanitize_tenant-IsLabel u s = elim (Bool-cases (matches_token (to_lower u (trim_space s)))) [
  | inl e ↦ record { label = rw e (λ h. matches_token-IsLabel (to_lower u (trim_space s)) e) }
  | inr e ↦ record { label = rw e (λ h. cc) }
]

unless : (b : Bool) (s : String) → EmptyOrLabel s → EmptyOrLabel (if b then "" else s)
unless true s k = record { label = λ h. cc }
unless false s k = k

module _ (net : Net) (u : Unicode) (opts : Options) (r : Request) where
  tenant_from_host-IsLabel : EmptyOrLabel (tenant_from_host net u opts r)
  unfolding tenant_from_host
  tenant_from_host-IsLabel = search (unless, sanitize_tenant-IsLabel u)

  tenant_from_path-IsLabel : EmptyOrLabel (tenant_from_path net u opts r)
  unfolding tenant_from_path
  tenant_from_path-IsLabel = search (unless, sanitize_tenant-IsLabel u)

  abbrev Labelled : String × String → Type 0
  Labelled p = IsLabel p.0 × (p.1 ≡ issuer_for net u opts p.0 r)

  -- Every success of a result is labelled.
  record Good (m : Result TenantError (String × String)) : Type 0 where
    labelled : (p : String × String) → m ≡ ok p → Labelled p

  found-Good :
      (a : Bool) (tenant : String)
      → EmptyOrLabel tenant
      → a && not (is_empty tenant) ≡ true
      → Good (ok (tenant, issuer_for net u opts tenant r))
  found-Good a tenant k h = record {
    labelled = λ p e.
        subst Labelled (ok_inj e)
          (k.label (ground (arith, &&-eq-true a (not (is_empty tenant)) h)), refl);
  }

  named-Good :
      (tenant : String)
      → EmptyOrLabel tenant
      → Good (
          if is_empty tenant
          then err bad_tenant_token
          else ok (tenant, issuer_for net u opts tenant r))
  named-Good tenant k = elim (Bool-cases (is_empty tenant)) [
    | inl e ↦ rw e (record { labelled = λ p h. cc })
    | inr e ↦ rw e (found-Good true tenant k (rw e refl))
  ]

  error-Good : (e : TenantError) → Good (err e)
  error-Good e = record { labelled = λ p h. cc }

  when-Good :
      (b : Bool) (x y : Result TenantError (String × String))
      → (b ≡ true → Good x)
      → Good y
      → Good (if b then x else y)
  when-Good true x y h k = h refl
  when-Good false x y h k = k

  resolve-Good : Good (resolve net u opts r)
  unfolding resolve
  resolve-Good =
      let header = trim_space (get opts.header_key r.headers) in
      let name = λ (t : String). named-Good (sanitize_tenant u t) (sanitize_tenant-IsLabel u t) in
      when-Good (not (is_empty opts.header_key) && not (is_empty header)) _ _ (λ b. name header)
        (when-Good (opts.host_is_tenant && not (is_empty (tenant_from_host net u opts r))) _ _
          (found-Good opts.host_is_tenant _ tenant_from_host-IsLabel)
          (when-Good
            (not (is_empty opts.path_prefix) && not (is_empty (tenant_from_path net u opts r))) _ _
            (found-Good (not (is_empty opts.path_prefix)) _ tenant_from_path-IsLabel)
            (when-Good (not (is_empty opts.default_tenant)) _ _ (λ b. name opts.default_tenant)
              (error-Good no_tenant))))

  -- A tenant that the resolver finds, be it in a header, the host, the path or the options, is a
  -- label of a host name: 1 to 62 lower case letters, digits and hyphens, the first no hyphen; and
  -- the issuer is the one of that tenant.
  pub resolve-IsLabel :
      {tenant issuer : String}
      → resolve net u opts r ≡ ok (tenant, issuer)
      → IsLabel tenant × (issuer ≡ issuer_for net u opts tenant r)
  resolve-IsLabel h = resolve-Good.labelled _ h
