-- ===== src/Api/Access/Guard.antt =====
-- cmd/ca-server/main.go and internal/api/auth_middleware.go: what the token guards.
use ad_pki_ca.Base.{true, some, ◌≡◌, ◌⊎◌, List, [], ◌∷◌, String}
use ad_pki_ca.Env.{Env}
use ad_pki_ca.World.{World}
use ad_pki_ca.Api.Access.{Route, wants_token, route_of}

-- The paths of the administration.
abbrev pub guarded_paths : List String
guarded_paths =
    "/sign" ∷ "/sign-from-data" ∷ "/ca/import-root" ∷ "/ca/import-intermediate"
    ∷ "/ca/validate-intermediate" ∷ "/ocsp" ∷ "/ocsp/clear-cache" ∷ "/system/info" ∷ "/system/ntp"
    ∷ "/acme/accounts" ∷ "/tsa/generate" ∷ "/tsa/status" ∷ []

abbrev pub IsIn : String → List String → Type 0
IsIn s [] = ⊥
IsIn s (t ∷ ts) = (s ≡ t) ⊎ IsIn s ts

-- The path has a route, and the route wants the token.
abbrev IsGuarded : String → Type 0
IsGuarded path = (route : Route) × (route_of path ≡ some route) × (wants_token route ≡ true)

abbrev AreGuarded : List String → Type 0
AreGuarded [] = Unit {0}
AreGuarded (path ∷ paths) = IsGuarded path × AreGuarded paths
