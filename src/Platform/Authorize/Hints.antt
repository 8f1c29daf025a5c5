-- ===== src/Platform/Authorize/Hints.antt =====
-- pkg/platform/lti/authorize.go: DecodeMessageHint.
use mindengage_lms.Prelude.{
  ℕ, ℤ, pos, String, Bool, true, false, Option, none, some, List, [], GoMap, Result, ok, err,
  if◌then◌else◌,
}
use mindengage_lms.Strings.{trim_space, is_empty}

pub record MessageHint : Type 0 where
  pub kind : String
  pub tenant_id : String
  pub client_id : String
  pub deployment_id : String
  pub context_id : String
  pub return_url : String
  pub extra : GoMap String
  pub issued_at : ℤ

abbrev no_hint : MessageHint
no_hint = record {
  kind = "";
  tenant_id = "";
  client_id = "";
  deployment_id = "";
  context_id = "";
  return_url = "";
  extra = [];
  issued_at = pos 0;
}

-- base64.RawURLEncoding, base64.URLEncoding.WithPadding(base64.NoPadding), and json.Unmarshal into a
-- MessageHint, which it may fill in part before its error.
pub record HintCodec : Type 0 where
  pub raw_url : String → Result String (List ℕ)
  pub url_without_padding : String → Result String (List ℕ)
  pub unmarshal : List ℕ → MessageHint × Option String

abbrev read_hint : HintCodec → Result String (List ℕ) → MessageHint × Bool × Option String
read_hint codec (err e) = (no_hint, false, some e)
read_hint codec (ok buf) = let (hint, e) = codec.unmarshal buf in (hint, true, e)

abbrev or_else : Result String (List ℕ) → Result String (List ℕ) → Result String (List ℕ)
or_else (ok buf) second = ok buf
or_else (err e) second = second

unfoldable pub decode_message_hint : HintCodec → String → MessageHint × Bool × Option String
unfolding trim_space
decode_message_hint codec s =
    let t = trim_space s in
    if is_empty t
    then (no_hint, false, none)
    else read_hint codec (or_else (codec.raw_url t) (codec.url_without_padding t))
