-- ===== src/Tests/Sequences.antt =====
-- The theorems about sequences of requests and about the query loop of `src/service.rs`, applied.
use tower_guard_rs.Base.{◌+◌, codes, none, some, List, [], ◌∷◌, contains, stop, ◌≡◌, refl, arith}
use tower_guard_rs.Route.{bypassed}
use tower_guard_rs.Layer.{GuardLayer}
use tower_guard_rs.Layer.Build.{build_stage}
use tower_guard_rs.Layer.Builders.{default_config, with_ip_gate}
use tower_guard_rs.Service.Buffer.{payload}
use tower_guard_rs.Service.RouteAccess.{resolve_route}
use tower_guard_rs.Service.Call.{Service, produced}
use tower_guard_rs.Service.Call.Fresh.{fresh, limits_of, IsOpen}
use tower_guard_rs.Service.Call.Transparent.{untouched}
use tower_guard_rs.Service.Call.Unread.{IsUnread, call-gate_denied_unread}
use tower_guard_rs.Service.Call.Sequence.{Request, serve, serve-alone}
use tower_guard_rs.Service.Query.{decode_bytes}
use tower_guard_rs.Service.Query.Loop.{decode_loop, decode_loop-decode_bytes}
use tower_guard_rs.Tests.Toy.{toy}
use tower_guard_rs.Tests.Fixtures.{no_threat, bare, request, builder, closed_gate}

abbrev shut : GuardLayer toy
shut = with_ip_gate toy bare closed_gate

call-gate_denied_unread_example : IsUnread toy shut request 0
unfolding contains bypassed resolve_route
call-gate_denied_unread_example =
    call-gate_denied_unread toy shut request 0 closed_gate 7 (codes "blacklisted") refl refl refl
      refl refl refl refl

-- A service that counts its calls and echoes their bodies.
abbrev echo : Service toy
echo parts body w = (produced (record { status = 200; headers = []; body = body }), w + 1)

abbrev two : List (Request toy)
two = (request, payload (codes "ab") ∷ payload (codes "c") ∷ []) ∷ (request, []) ∷ []

abbrev open_stage :
    IsOpen toy none (limits_of toy (λ _ _ _. some no_threat) (default_config toy) builder)
unfolding build_stage
open_stage = record { bans = λ _ _ _. refl; tiers = λ _ _ _ _ _ _. refl }

serve-alone_example :
    serve toy (fresh toy (λ _ _ _. some no_threat) (default_config toy) builder) echo two 0 ≡ (
      stop (untouched toy (produced (record { status = 200; headers = []; body = codes "abc" })))
          ∷ stop (untouched toy (produced (record { status = 200; headers = []; body = [] })))
          ∷ [],
      2,
    )
unfolding default_config
serve-alone_example =
    serve-alone toy (λ _ _ _. some no_threat) (default_config toy) builder echo two 0
      (λ _ _ _. (no_threat, refl, refl)) open_stage
      ((refl, omega arith, refl), ((refl, omega arith, refl), tt))

decode_loop-decode_bytes_example : decode_loop 9 (codes "a%2Bb%zz") 0 [] ≡ some (codes "a+b%zz")
unfolding decode_bytes
decode_loop-decode_bytes_example = decode_loop-decode_bytes (codes "a%2Bb%zz")
