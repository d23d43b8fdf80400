-- ===== src/Redaction/Tests.antt =====
-- Redaction at concrete patterns.
use perimetr.Prelude.{String, ◌≡◌, refl, false, none, some, ◌==◌}
use perimetr.Prelude.Text.{truncate}
use perimetr.Json.{Json, str, obj, arr, cons, nil, end, field, set_field}
use perimetr.Redaction.{Patterns, redact_url, redact, text}

-- A key is private if it begins with `token`; texts have no URL and no secret.
abbrev patterns : Patterns
patterns = record {
  sub_urls = λ f s. s;
  sub_keys = λ s. s;
  sub_inline = λ s. s;
  is_private = λ k. truncate 5 k == "token";
  urlsplit = λ s. none;
  urlunsplit = λ a b c d. a;
  json_bytes = λ v. 10;
}

abbrev payload : Json
payload = obj (field "token" (str "abc") (field "to" (arr (cons (str "x") nil)) end))

redacted :
    redact patterns 0 payload
    ≡ obj (field "token" (str "[REDACTED]") (field "to" (arr (cons (str "x") nil)) end))
unfolding redact set_field text
redacted = refl

-- The port of an address with a bad port is not read where the scheme hides all of it.
abbrev bad_port : String → Patterns
bad_port scheme = record patterns {
  urlsplit = λ s. some (record {
    scheme = scheme;
    hostname = some "h";
    host_has_colon = false;
    port = none;
    path = "";
    has_query = false;
  });
}

hidden : redact_url (bad_port "vless") "u" ≡ "vless://[REDACTED]"
unfolding redact_url
hidden = refl

refused_port : redact_url (bad_port "https") "u" ≡ "[REDACTED URL]"
unfolding redact_url
refused_port = refl
