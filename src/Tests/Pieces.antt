-- ===== src/Tests/Pieces.antt =====
-- The theorems about the pieces of `src/service.rs`, applied.
use tower_guard_rs.Base.{
  ℕ, Text, codes, true, false, none, some, [], ◌∷◌, ◌≡◌, refl, arith, is_utf8,
}
use tower_guard_rs.Engine.{ResponseBits}
use tower_guard_rs.Engine.Stages.{ResponseProcessor}
use tower_guard_rs.Layer.{Modified, GuardLayer}
use tower_guard_rs.Response.{Response, generated}
use tower_guard_rs.Service.Query.{decode_query_component, query_params}
use tower_guard_rs.Service.Query.Pairs.{form, query_params-form}
use tower_guard_rs.Service.Query.Encode.{encode, decode_query_component-encode}
use tower_guard_rs.Service.Buffer.{payload, trailers, broken, buffer_body, failed, read}
use tower_guard_rs.Service.Buffer.Laws.{buffer_body_lem}
use tower_guard_rs.Service.Respond.{
  ProcessorInput, forwarded, apply_response_processor, finish_generated,
}
use tower_guard_rs.Service.Respond.Laws.{finish_generated-keeps, apply_response_processor-panicked}
use tower_guard_rs.Request.Host.{host_of_authority}
use tower_guard_rs.Request.Host.Authority.{
  with_user, host_of_authority-port, host_of_authority-brackets,
}
use tower_guard_rs.Tests.Toy.{toy}
use tower_guard_rs.Tests.Fixtures.{bare, request}

buffer_body_example : buffer_body (payload (codes "ab") ∷ trailers ∷ broken ∷ []) 4 ≡ failed read
buffer_body_example = buffer_body_lem (payload (codes "ab") ∷ trailers ∷ broken ∷ []) 4

decode_query_component_example : decode_query_component (encode (codes "a+b c")) ≡ codes "a+b c"
unfolding is_utf8
decode_query_component_example =
    decode_query_component-encode (codes "a+b c")
      (omega arith, (omega arith, (omega arith, (omega arith, (omega arith, tt))))) refl

-- A processor that answers 418 with one header, over an event bus, and a modifier that panics.
abbrev processor : ResponseProcessor toy
processor = record {
  cors_enabled = false;
  cors = none;
  security_headers = some ((codes "x-frame-options", codes "DENY") ∷ []);
  process_usage_rules = λ _ _ _ _ w. ([], w);
  process = λ _ _ _ w.
      (record { status = 418; headers = (codes "x-frame-options", codes "DENY") ∷ [] }, w);
}

abbrev modifier : ResponseBits → ℕ → Modified × ℕ
modifier bits w = (record { bits = record { status = 200; headers = [] }; is_err = true }, w)

abbrev processing : GuardLayer toy
processing = record bare {
  response_processor = some processor;
  events = some tt;
  response_modifier = some modifier;
}

abbrev input : ProcessorInput
input = record { method = codes "GET"; url_path = codes "/"; client_ip = []; origin = none }

abbrev denial : Response toy Text
denial = record { status = 403; headers = []; body = codes "Forbidden" }

finish_generated_example :
    ((finish_generated toy request processing denial 0).0.body ≡ generated (codes "Forbidden"))
    × (toy.http.valid_status (finish_generated toy request processing denial 0).0.status ≡ true)
finish_generated_example = finish_generated-keeps toy request processing denial 0 refl

apply_response_processor-panicked_example :
    (apply_response_processor toy processing input 403 [] forwarded 0).0
    ≡ (apply_response_processor toy
        (record processing { response_modifier = none })
        input
        403
        []
        forwarded
        0).0
apply_response_processor-panicked_example =
    apply_response_processor-panicked toy processing input 403 [] forwarded 0 modifier refl
      (λ _ _. refl)

host_of_authority-port_example :
    host_of_authority (with_user (some (codes "me")) (codes "a.b:80")) ≡ codes "a.b"
host_of_authority-port_example =
    host_of_authority-port (some (codes "me")) (codes "a.b") (codes "80") (refl, (refl, (refl, tt)))
      (refl, (refl, (refl, tt))) (refl, (refl, (refl, tt))) refl refl

host_of_authority-brackets_example :
    host_of_authority (with_user none (codes "[::1]:443")) ≡ codes "::1"
host_of_authority-brackets_example =
    host_of_authority-brackets none (codes "::1") (codes ":443") (refl, (refl, (refl, tt)))
      (refl, (refl, (refl, (refl, tt)))) (refl, (refl, (refl, tt)))

query_params-form_example :
    query_params (some (form ((codes "q", codes "&=") ∷ (codes "e", []) ∷ [])))
    ≡ (codes "q", codes "&=") ∷ (codes "e", []) ∷ []
unfolding is_utf8
query_params-form_example = query_params-form ((codes "q", codes "&=") ∷ (codes "e", []) ∷ []) (
  ((omega arith, tt), refl, (omega arith, (omega arith, tt)), refl),
  (((omega arith, tt), refl, tt, refl), tt),
)
