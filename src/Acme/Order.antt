-- ===== src/Acme/Order.antt =====
-- internal/acme/order.go: orders, their authorizations, and the order's status.
pub mod Status
pub mod Creation
use ad_pki_ca.Base.{
  ℕ, ◌+◌, ◌*◌, Bool, true, false, not, ◌&&◌, ◌||◌, List, [], ◌∷◌, ◌++◌, String, ◌==◌, ◌<>◌, map,
  none, has_prefix, if◌then◌else◌, after_last_slash,
}
use ad_pki_ca.Env.{Env}
use ad_pki_ca.World.{World, Outcome, Exec, ok, err, pure, reads, or_zero, attempt, ◌>>=◌}
use ad_pki_ca.Acme.Types.{
  Identifier, Order, Challenge, Authorization, order_pending, order_ready, order_invalid,
  authz_pending, authz_valid, authz_invalid, challenge_pending,
}
use ad_pki_ca.Acme.Account.{new_id}
use ad_pki_ca.Acme.Storage.{load_order, save_order, load_authz}

-- One round of the loop of `UpdateOrderStatus`: `allValid` and `anyInvalid` after a link's
-- authorization was loaded, or could not be.
abbrev pub saw : Outcome String Authorization → Bool × Bool → Bool × Bool
saw (err _) (all_valid, any_invalid) = (false, any_invalid)
saw (ok authz) (all_valid, any_invalid) = (
  if authz.status == authz_valid then all_valid else false,
  if authz.status == authz_invalid then true else any_invalid,
)

-- 24 * time.Hour
abbrev day : ℕ
day = 24 * 3600

module _ (env : Env) where
  unfoldable pub new_order_id : Exec String String
  unfolding new_id
  new_order_id = new_id env 12

  unfoldable pub new_authz_id : Exec String String
  unfolding new_id
  new_authz_id = new_id env 12

  unfoldable pub new_challenge_token : Exec String String
  unfolding new_id
  new_challenge_token = new_id env 32

  unfoldable pub new_challenge_id : Exec String String
  unfolding new_id
  new_challenge_id = new_id env 8

  -- One challenge of a kind. A failed draw leaves its id or token empty.
  unfoldable pub new_challenge : String → String → Exec String Challenge
  unfolding new_challenge_id new_challenge_token
  new_challenge kind base_url = do
    id ← or_zero "" new_challenge_id
    token ← or_zero "" new_challenge_token
    pure (record {
      id = id;
      kind = kind;
      status = challenge_pending;
      token = token;
      url = base_url <> "/acme/challenge/" <> id;
      validated_at = none;
    })

  unfoldable pub http_challenges : Bool → String → Exec String (List Challenge)
  unfolding new_challenge
  http_challenges is_wildcard base_url =
      if is_wildcard then pure [] else do http ← new_challenge "http-01" base_url; pure (http ∷ [])

  unfoldable pub new_authorization :
      String → String → Identifier → String → Exec String Authorization
  unfolding new_authz_id new_challenge http_challenges
  new_authorization account_id order_id identifier base_url = do
    authz_id ← new_authz_id
    dns ← new_challenge "dns-01" base_url
    http ← http_challenges (has_prefix "*." identifier.value) base_url
    now ← reads (λ w. w.now)
    pure (record {
      id = authz_id;
      account_id = account_id;
      order_id = order_id;
      status = authz_pending;
      identifier = identifier;
      challenges = dns ∷ http;
      expires_at = now + day;
      created_at = now;
    })

  -- The loop of `NewOrder`.
  unfoldable pub new_authorizations :
      String → String → List Identifier → String → Exec String (List Authorization)
  new_authorizations account_id order_id [] base_url = pure []
  new_authorizations account_id order_id (i ∷ is') base_url = do
    authz ← new_authorization account_id order_id i base_url
    rest ← new_authorizations account_id order_id is' base_url
    pure (authz ∷ rest)

  abbrev pub authz_url : String → String → String
  authz_url base_url id = base_url <> "/acme/authz/" <> id

  -- The order that `NewOrder` builds.
  abbrev pub order_for : String → List Identifier → String → String → List Authorization → ℕ → Order
  order_for account_id identifiers base_url order_id authz_list now = record {
    id = order_id;
    account_id = account_id;
    status = order_pending;
    identifiers = identifiers;
    authorizations = map (λ (a : Authorization). authz_url base_url a.id) authz_list;
    finalize_url = base_url <> "/acme/finalize/" <> order_id;
    certificate_url = "";
    cert_path = "";
    not_before = none;
    not_after = none;
    expires_at = now + day;
    created_at = now;
    intermediate_id = "";
  }

  unfoldable pub new_order :
      String → List Identifier → String → Exec String (Order × List Authorization)
  unfolding new_order_id
  new_order account_id identifiers base_url = do
    order_id ← new_order_id
    authz_list ← new_authorizations account_id order_id identifiers base_url
    now ← reads (λ w. w.now)
    pure (order_for account_id identifiers base_url order_id authz_list now, authz_list)

  -- The loop of `UpdateOrderStatus` over the authorization links: `allValid` and `anyInvalid`.
  unfoldable pub scan : World → List String → Bool × Bool → Bool × Bool
  scan w [] acc = acc
  scan w (link ∷ links) acc = scan w links (saw (load_authz env (after_last_slash link) w).0 acc)

  abbrev pub status_of : Bool × Bool → String → String
  status_of (all_valid, any_invalid) old =
      if any_invalid then order_invalid else if all_valid then order_ready else old

  unfoldable pub update_order_status : String → Exec String (Unit {0})
  update_order_status order_id =
      attempt (load_order env order_id)
        (λ order w.
          or_zero tt
            (save_order env (record order {
              status = status_of (scan w order.authorizations (true, false)) order.status;
            }))
            w)
        (pure tt)
