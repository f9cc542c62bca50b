-- ===== src/Auth/Middleware/Tests.antt =====
-- Requests that the middleware passes on, and one that it refuses.
use on_call_agent.Base.{
  ◌≡◌, ◌≢◌, refl, true, false, [], ◌∷◌, codes, ok, fields, fold_ascii, nat_eq, list_eq, Text,
}
use on_call_agent.Auth.Service.{principal_of, validate_token, is_incomplete, claims_for}
use on_call_agent.Auth.Service.Tests.{alice, service, one_token}
use on_call_agent.Auth.Middleware.{
  is_bearer, bearer_token, scheme_token, middleware, middleware-next,
}

middleware-next_example :
    (scheme : Text) × (token : Text) × (fields (codes "bearer tok") ≡ scheme ∷ token ∷ [])
    × (is_bearer scheme ≡ true)
    × (validate_token one_token service 6 token ≡ ok (principal_of alice))
    × (is_incomplete (codes "user-alice") (codes "tenant-acme") (codes "alice") ≡ false)
unfolding middleware validate_token bearer_token scheme_token fields is_bearer
    on_call_agent.Base.trim_space claims_for is_incomplete
middleware-next_example =
    middleware-next one_token service 6 (codes "bearer tok") (principal_of alice) refl
