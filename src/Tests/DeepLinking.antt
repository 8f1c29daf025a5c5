-- ===== src/Tests/DeepLinking.antt =====
-- A deep linking response with one resource link, and a store that counts its calls.
use mindengage_lms.Prelude.{ℕ, suc, true, some, [], ◌∷◌, ok}
use mindengage_lms.Exam.Models.{str, arr, obj, nil, cons, Fields, end, field}
use mindengage_lms.Platform.Http.{Request}
use mindengage_lms.Platform.DeepLinking.{ClaimsCodec}
use mindengage_lms.Platform.DeepLinking.Response.{DeepLinkServer, raw_jwt}
use mindengage_lms.Platform.DeepLinking.Response.Persisted.{message_type_claim, items_claim}
use mindengage_lms.Tests.Setup.{thousandths}
use mindengage_lms.Tests.Requests.{request}

abbrev link_item : Fields ℕ
link_item = field "type" (str "ltiResourceLink") (
    field "title" (str "Quiz") (
      field "url" (str "https://quiz.org/1")
        (field "lineItem" (obj (field "label" (str "Quiz 1") end)) end)))

abbrev file_item : Fields ℕ
file_item = field "type" (str "file") end

abbrev response_claims : Fields ℕ
response_claims = field "iss" (str "c1") (
    field "jti" (str "j1") (
      field message_type_claim (str "LtiDeepLinkingResponse")
        (field items_claim (arr (cons (obj file_item) (cons (obj link_item) nil))) end)))

abbrev claims_codec : ClaimsCodec ℕ
claims_codec = record {
  raw_url = λ s. ok [];
  url_without_padding = λ s. ok [];
  unmarshal = λ bytes. ok response_claims;
}

abbrev deep_link_server : DeepLinkServer ℕ ℕ
deep_link_server = record {
  resolve_tenant_id = some (λ r. ok "acme");
  issuer_for_tenant = λ tenant. ok "https://lms.org";
  verify_tool_jwt = λ tenant client_id raw_jwt aud. ok response_claims;
  store = record {
    upsert_resource_link = λ at id title url custom s. (ok id, suc s);
    upsert_platform_line_item = λ tenant context_id link id label score_max s. (ok "line", suc s);
  };
  replay = some (λ kind value s. (true, suc s));
  random_hex = λ i. "ab";
  with_status = λ url count. url;
}

abbrev response_request : Request
response_request = record request {
  post_form = ("JWT", "h.p.s") ∷ [];
  query = ("deployment_id", "d1") ∷ ("context_id", "ctx") ∷ [];
}
